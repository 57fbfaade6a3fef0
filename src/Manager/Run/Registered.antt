-- ===== src/Manager/Run/Registered.antt =====
-- Which relays stand in the table of sessions, after any calls, src/relay_manager.cpp.
use ssl_socks.Base.{
  ℕ, ◌+◌, ◌≤◌, ◌<◌, ◌≡◌, refl, sym, ap, ◌∙◌, subst, ◌≢◌, inl, inr, false, Option, none, some, List,
  [], ◌∷◌, arith, ◌==◌, ==_iff, Bool-cases, if_true, if_false, either_branch, nat_eq, lookup,
  insert, erase,
}
use ssl_socks.Manager.World.{Object, World, update, call}
use ssl_socks.Relay.{Relay}

-- A pointer that may stand under the session `s`: null, or one that was given out, to a relay of
-- that session.
abbrev pub Fits : World → ℕ → Option ℕ → Type 0
Fits w s none = Unit {0}
Fits w s (some p) = (p < w.next) × ((w.objects p).session ≡ s)

abbrev pub Registered : World → List (ℕ × Option ℕ) → Type 0
Registered w [] = Unit {0}
Registered w ((s, o) ∷ rest) = Fits w s o × Registered w rest

-- What is not changed for the relays that there are.
pub record Grows (w w' : World) : Type 0 where
  pub more : w.next ≤ w'.next
  pub same : (p : ℕ) → p < w.next → (w'.objects p).session ≡ (w.objects p).session

pub Fits-Grows : (w w' : World) (s : ℕ) (o : Option ℕ) → Grows w w' → Fits w s o → Fits w' s o
Fits-Grows w w' s none g h = tt
Fits-Grows w w' s (some p) g h = (omega (arith, g.more), g.same p h.0 ∙ h.1)

pub Registered-Grows :
    (w w' : World) (m : List (ℕ × Option ℕ)) → Grows w w' → Registered w m → Registered w' m
Registered-Grows w w' [] g h = tt
Registered-Grows w w' ((s, o) ∷ m) g h = (Fits-Grows w w' s o g h.0, Registered-Grows w w' m g h.1)

pub Grows-trans : {u v w : World} → Grows u v → Grows v w → Grows u w
Grows-trans g h = record {
  more = omega (arith, g.more, h.more);
  same = λ p l. h.same p (omega (arith, g.more)) ∙ g.same p l;
}

pub Grows-call : (p : ℕ) (f : Relay → Relay) (w : World) → Grows w (call p f w)
unfolding call
Grows-call p f w = record { more = omega arith; same = λ q l. kept q }
  where
    kept : (q : ℕ) → ((call p f w).objects q).session ≡ (w.objects q).session
    kept q = elim (Bool-cases (p == q)) [
      | inl e ↦ rw e (ap (λ x. (w.objects x).session) ((==_iff p q).0 e))
      | inr n ↦ rw n refl
    ]

pub ==_ne : (a b : ℕ) → a ≢ b → (a == b) ≡ false
==_ne a b h = ground arith

-- A new relay at the end of the store.
pub Grows-new :
    (w w' : World) (o : Object)
    → w'.next ≡ w.next + 1
    → w'.objects ≡ update w.objects w.next o
    → Grows w w'
Grows-new w w' o n e = record { more = omega (arith, n); same = λ q l. kept q l }
  where
    kept : (q : ℕ) → q < w.next → (w'.objects q).session ≡ (w.objects q).session
    kept q l = rw e (rw (==_ne w.next q (omega arith)) refl)

some_eq : {a b : Option ℕ} → some a ≡ some b → a ≡ b
some_eq e = cc

module _ (w : World) (s : ℕ) where
  pub Registered-insert :
      (o : Option ℕ) (m : List (ℕ × Option ℕ))
      → Fits w s o
      → Registered w m
      → Registered w (insert s o m)
  unfolding insert
  Registered-insert o [] e h = (e, tt)
  Registered-insert o ((k, old) ∷ m) e h =
      either_branch (Registered w) (k == s) (e, h.1) (h.0, Registered-insert o m e h.1)

  pub Registered-erase : (m : List (ℕ × Option ℕ)) → Registered w m → Registered w (erase s m)
  unfolding erase
  Registered-erase [] h = tt
  Registered-erase ((k, old) ∷ m) h =
      either_branch (Registered w) (k == s) (Registered-erase m h.1) (h.0, Registered-erase m h.1)

  pub Registered-lookup :
      (o : Option ℕ) (m : List (ℕ × Option ℕ)) → Registered w m → lookup s m ≡ some o → Fits w s o
  unfolding lookup
  Registered-lookup o [] h e = absurd (cc)
  Registered-lookup o ((k, old) ∷ m) h e = elim (Bool-cases (k == s)) [
    | inl same ↦
        subst (λ x. Fits w s x) (some_eq (sym (if_true (some old) (lookup s m) same) ∙ e))
          (subst (λ x. Fits w x old) ((==_iff k s).0 same) h.0)
    | inr other ↦ Registered-lookup o m h.1 (sym (if_false (some old) (lookup s m) other) ∙ e)
  ]
