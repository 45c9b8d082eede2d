-- ===== src/Effects.antt =====
-- Statements that change a state and may raise, as both recorders use them. The state outlives an
-- exception, as Python's objects do.
pub mod Checks
use matching_machine.Prelude.{◌≡◌, Bool, true, false}

pub data Result (E A : Type 0) : Type 0 where
  ok : A → Result E A
  raise : E → Result E A

abbrev pub Action : (S E A : Type 0) → Type 0
Action S E A = S → Result E A × S

-- `finally`: an exception of the clean-up replaces the one under way.
abbrev pub finish : {E A : Type 0} → Result E A → Result E (Unit {0}) → Result E A
finish r (ok _) = r
finish r (raise e) = raise e

module _ {S E A : Type 0} where
  abbrev pub pure : A → Action S E A
  pure a s = (ok a, s)

  abbrev pub throw : E → Action S E A
  throw e s = (raise e, s)

  -- `try: body` / `finally: cleanup`
  abbrev pub try_finally : Action S E A → Action S E (Unit {0}) → Action S E A
  try_finally body cleanup s =
      let (r, s') = body s in let (c, s'') = cleanup s' in (finish r c, s'')

module _ {S E A B : Type 0} where
  abbrev pub and_then : Result E A → (A → Action S E B) → Action S E B
  and_then (ok a) f s = f a s
  and_then (raise e) f s = (raise e, s)

  infixl 5 ◌>>=◌ ◌>>◌
  abbrev pub ◌>>=◌ : Action S E A → (A → Action S E B) → Action S E B
  ◌>>=◌ m f s = let (r, s') = m s in and_then r f s'

  abbrev pub ◌>>◌ : Action S E A → Action S E B → Action S E B
  ◌>>◌ m n = m >>= λ _. n

module _ {S E : Type 0} where
  abbrev pub get : Action S E S
  get s = (ok s, s)

  abbrev pub modify : (S → S) → Action S E (Unit {0})
  modify f s = (ok tt, f s)

  abbrev pub raise_if : Bool → E → Action S E (Unit {0})
  raise_if true e s = (raise e, s)
  raise_if false e s = (ok tt, s)

  abbrev pub when : Bool → Action S E (Unit {0}) → Action S E (Unit {0})
  when true m s = m s
  when false m s = (ok tt, s)

-- A predicate holds of the state however an action ends.
pub record Keeps {S E A : Type 0} (P : S → Type 0) (m : Action S E A) : Type 0 where
  pub apply : (s : S) → P s → P (m s).1

-- From `P` an action ends in `Q`, or with an exception in `R`.
abbrev pub Ends : {S E A : Type 0} → (Q R : S → Type 0) → Result E A → S → Type 0
Ends Q R (ok a) s = Q s
Ends Q R (raise e) s = R s

pub record Ensures {S E A : Type 0} (P Q R : S → Type 0) (m : Action S E A) : Type 0 where
  pub apply : (s : S) → P s → Ends Q R (m s).0 (m s).1

module _ {S E A B : Type 0} where
  and_then_keeps :
      (P : S → Type 0) (f : A → Action S E B) (r : Result E A) (s : S)
      → ((a : A) → Keeps P (f a))
      → P s
      → P (and_then r f s).1
  and_then_keeps P f (ok a) s hf h = (hf a).apply s h
  and_then_keeps P f (raise e) s hf h = h

  and_then_ensures :
      (Q T R : S → Type 0) (f : A → Action S E B) (r : Result E A) (s : S)
      → ((a : A) → Ensures Q T R (f a))
      → Ends Q R r s
      → Ends T R (and_then r f s).0 (and_then r f s).1
  and_then_ensures Q T R f (ok a) s hf h = (hf a).apply s h
  and_then_ensures Q T R f (raise e) s hf h = h

  pub Keeps-bind :
      {P : S → Type 0} {m : Action S E A} {f : A → Action S E B}
      → Keeps P m
      → ((a : A) → Keeps P (f a))
      → Keeps P (m >>= f)
  Keeps-bind {P} {m} {f} hm hf = record {
    apply = λ s h. and_then_keeps P f (m s).0 (m s).1 hf (hm.apply s h);
  }

  pub Ensures-bind :
      {P Q T R : S → Type 0} {m : Action S E A} {f : A → Action S E B}
      → Ensures P Q R m
      → ((a : A) → Ensures Q T R (f a))
      → Ensures P T R (m >>= f)
  Ensures-bind {P} {Q} {T} {R} {m} {f} hm hf = record {
    apply = λ s h. and_then_ensures Q T R f (m s).0 (m s).1 hf (hm.apply s h);
  }

finish_ensures :
    {S E A : Type 0} (Q R : S → Type 0) (r : Result E A) (c : Result E (Unit {0})) (s : S)
    → ((s : S) → Q s → R s)
    → Ends Q R c s
    → Ends Q R (finish r c) s
finish_ensures Q R (ok a) (ok u) s w g = g
finish_ensures Q R (ok a) (raise e) s w g = g
finish_ensures Q R (raise f) (ok u) s w g = w s g
finish_ensures Q R (raise f) (raise e) s w g = g

finish_kept :
    {S E A : Type 0} {Q R : S → Type 0} (r : Result E A) (c : S → Result E (Unit {0}) × S) (s : S)
    → ((s : S) → (c s).0 ≡ ok tt)
    → Keeps Q c
    → Keeps R c
    → Ends Q R r s
    → Ends Q R (finish r (c s).0) (c s).1
finish_kept (ok a) c s total kq kr h = rw (total s, finish) (kq.apply s h)
finish_kept (raise e) c s total kq kr h = rw (total s, finish) (kr.apply s h)

finish_around :
    {S E A : Type 0} {Q R : S → Type 0} (r : Result E A) (c : S → Result E (Unit {0}) × S) (s : S)
    → ((s : S) → Q s → R s)
    → Keeps Q c
    → Keeps R c
    → Ends Q R r s
    → Ends Q R (finish r (c s).0) (c s).1
finish_around {E = E} {A = A} {Q = Q} {R = R} (ok a) c s w kq kr h = go (c s).0 (kq.apply s h)
  where
    go : (e : Result E (Unit {0})) → Q (c s).1 → Ends Q R (finish {A = A} (ok a) e) (c s).1
    go (ok u) g = g
    go (raise f) g = w (c s).1 g
finish_around {E = E} {A = A} {Q = Q} {R = R} (raise e) c s w kq kr h = go (c s).0 (kr.apply s h)
  where
    go : (u : Result E (Unit {0})) → R (c s).1 → Ends Q R (finish {A = A} (raise e) u) (c s).1
    go (ok u) g = g
    go (raise f) g = g

module _ {S E A : Type 0} where
  pub Keeps-finally :
      {P : S → Type 0} {body : Action S E A} {cleanup : Action S E (Unit {0})}
      → Keeps P body
      → Keeps P cleanup
      → Keeps P (try_finally body cleanup)
  Keeps-finally {P} {body} {cleanup} hb hc = record {
    apply = λ s h. hc.apply (body s).1 (hb.apply s h);
  }

  -- The clean-up decides how it ends.
  pub Ensures-finally :
      {P Q R : S → Type 0} {body : Action S E A} {cleanup : Action S E (Unit {0})}
      → ((s : S) → Q s → R s)
      → Keeps P body
      → Ensures P Q R cleanup
      → Ensures P Q R (try_finally body cleanup)
  Ensures-finally {P} {Q} {R} {body} {cleanup} w hb hc = record {
    apply = λ s h.
        let s' = (body s).1 in
        finish_ensures Q R (body s).0 (cleanup s').0 (cleanup s').1 w (hc.apply s' (hb.apply s h));
  }

  -- A clean-up that keeps both ends.
  pub Ensures-around :
      {P Q R : S → Type 0} {body : Action S E A} {cleanup : Action S E (Unit {0})}
      → ((s : S) → Q s → R s)
      → Keeps Q cleanup
      → Keeps R cleanup
      → Ensures P Q R body
      → Ensures P Q R (try_finally body cleanup)
  Ensures-around {P} {Q} {R} {body} {cleanup} w kq kr hb = record {
    apply = λ s h. finish_around (body s).0 cleanup (body s).1 w kq kr (hb.apply s h);
  }

  -- A clean-up that does not raise leaves the end as it is.
  pub Ensures-finish :
      {P Q R : S → Type 0} {body : Action S E A} {cleanup : Action S E (Unit {0})}
      → ((s : S) → (cleanup s).0 ≡ ok tt)
      → Keeps Q cleanup
      → Keeps R cleanup
      → Ensures P Q R body
      → Ensures P Q R (try_finally body cleanup)
  Ensures-finish {P} {Q} {R} {body} {cleanup} total kq kr hb = record {
    apply = λ s h. finish_kept (body s).0 cleanup (body s).1 total kq kr (hb.apply s h);
  }

  Ends-weaken :
      (P R : S → Type 0) (r : Result E A) (s : S) → ((s : S) → P s → R s) → P s → Ends P R r s
  Ends-weaken P R (ok a) s w h = h
  Ends-weaken P R (raise e) s w h = w s h

  pub Ensures-of_Keeps :
      {P R : S → Type 0} {m : Action S E A} → ((s : S) → P s → R s) → Keeps P m → Ensures P P R m
  Ensures-of_Keeps {P} {R} {m} w k = record {
    apply = λ s h. Ends-weaken P R (m s).0 (m s).1 w (k.apply s h);
  }

  -- What an end without an exception means.
  pub Ensures-ok :
      {P Q R : S → Type 0} {m : Action S E A}
      → Ensures P Q R m
      → (s : S) (a : A) → P s
      → (m s).0 ≡ ok a
      → Q (m s).1
  Ensures-ok {P} {Q} {R} {m} k s a h e = rw e at (k.apply s h)

  Ends-both :
      (Q R : S → Type 0) (r : Result E A) (s : S) → ((s : S) → Q s → R s) → Ends Q R r s → R s
  Ends-both Q R (ok a) s w h = w s h
  Ends-both Q R (raise e) s w h = h

  -- What holds of both ends.
  pub Ensures-both :
      {P Q R : S → Type 0} {m : Action S E A}
      → ((s : S) → Q s → R s)
      → Ensures P Q R m
      → (s : S) → P s
      → R (m s).1
  Ensures-both {P} {Q} {R} {m} w k s h = Ends-both Q R (m s).0 (m s).1 w (k.apply s h)

  Ends-same : (P : S → Type 0) (r : Result E A) (s : S) → Ends P P r s → P s
  Ends-same P (ok a) s h = h
  Ends-same P (raise e) s h = h

  pub Keeps-of_Ensures : {P : S → Type 0} {m : Action S E A} → Ensures P P P m → Keeps P m
  Keeps-of_Ensures {P} {m} k = record { apply = λ s h. Ends-same P (m s).0 (m s).1 (k.apply s h) }

  pub Keeps-pure : {P : S → Type 0} (a : A) → Keeps {S = S} {E = E} P (pure a)
  Keeps-pure a = record { apply = λ s h. h }

  pub Keeps-throw : {P : S → Type 0} (e : E) → Keeps {S = S} {E = E} {A = A} P (throw e)
  Keeps-throw e = record { apply = λ s h. h }

module _ {S E : Type 0} where
  pub Keeps-get : {P : S → Type 0} → Keeps {S = S} {E = E} P get
  Keeps-get = record { apply = λ s h. h }
