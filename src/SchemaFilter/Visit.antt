-- ===== src/SchemaFilter/Visit.antt =====
-- The visited tables are those that references lead to.
use mathlib.Core.Path.{subst}
use mathlib.Core.List.{Memᴰ}
use mathlib.Core.List.Memᴰ
use slice_db.Prelude.{
  ℕ, zero, suc, ◌≡◌, refl, sym, ap, ◌∙◌, ◌⊎◌, inl, inr, Str, List, [], ◌∷◌, true, false, Result, ok,
  ok_inj, err-ne-ok, returned-bind, str_eq, str_eq_iff, Bool-cases, arith,
}
use slice_db.SchemaFilter.{is_listed, visit_each, visit}

-- By children, children of children and so on.
pub data Reach (children : Str → List Str) : Str → Str → Type 0 where
  here : {a : Str} → Reach children a a
  through : {a b c : Str} → Memᴰ b (children a) → Reach children b c → Reach children a c

module _ (children : Str → List Str) where
  -- What a visit of some tables does to the set.
  pub record Visited (ids seen after : List Str) : Type 0 where
    pub grows : (x : Str) → is_listed x seen ≡ true → is_listed x after ≡ true
    pub has : (x : Str) → Memᴰ x ids → is_listed x after ≡ true
    pub closed :
        (x y : Str)
        → is_listed x after ≡ true
        → Memᴰ y (children x)
        → (is_listed x seen ≡ true) ⊎ (is_listed y after ≡ true)
    pub reached :
        (x : Str)
        → is_listed x after ≡ true
        → (is_listed x seen ≡ true) ⊎ ((i : Str) × Memᴰ i ids × Reach children i x)

  both :
      (id : Str) (ids seen more after : List Str)
      → Visited (id ∷ []) seen more
      → Visited ids more after
      → Visited (id ∷ ids) seen after
  both id ids seen more after f g = record {
    grows = λ x h. g.grows x (f.grows x h);
    has = λ x m. elim (Memᴰ.cases_cons m) [
      | inl e ↦ g.grows x (f.has x (Memᴰ.head e))
      | inr m ↦ g.has x m
    ];
    closed = λ x y h m. elim (g.closed x y h m) [
      | inl old ↦ elim (f.closed x y old m) [ inl o ↦ inl o | inr n ↦ inr (g.grows y n) ]
      | inr new ↦ inr new
    ];
    reached = λ x h. elim (g.reached x h) [
      | inl old ↦ elim (f.reached x old) [
        | inl o ↦ inl o
        | inr (i, m, p) ↦ elim (Memᴰ.cases_cons m) [
          | inl e ↦ inr (id, Memᴰ.head refl, subst (λ j. Reach children j x) e p)
          | inr none_left ↦ absurd (Memᴰ.not-nil none_left)
        ]
      ]
      | inr (i, m, p) ↦ inr (i, Memᴰ.tail m, p)
    ];
  }

  nothing : (seen : List Str) → Visited [] seen seen
  nothing seen = record {
    grows = λ x h. h;
    has = λ x m. absurd (Memᴰ.not-nil m);
    closed = λ x y h m. inl h;
    reached = λ x h. inl h;
  }

  pub each-Visited :
      (go : Str → List Str → Result (List Str))
      → ((id : Str) (seen after : List Str) → go id seen ≡ ok after → Visited (id ∷ []) seen after)
      → (ids seen after : List Str) → visit_each go ids seen ≡ ok after
      → Visited ids seen after
  unfolding visit_each
  each-Visited go one [] seen after h = subst (Visited [] seen) (ok_inj h) (nothing seen)
  each-Visited go one (id ∷ ids) seen after h =
      let (more, e, rest) = returned-bind (go id seen) _ h in
      both id ids seen more after (one id seen more e) (each-Visited go one ids more after rest)

  -- The table itself is put into the set before its children are visited.
  with_itself :
      (id : Str) (seen after : List Str)
      → Visited (children id) (id ∷ seen) after
      → Visited (id ∷ []) seen after
  with_itself id seen after f = record {
    grows = λ x h. f.grows x (ground (arith, h));
    has = λ x m. f.grows x (itself x (Memᴰ.eq_of_singleton m));
    closed = λ x y h m. elim (f.closed x y h m) [
      | inl old ↦ elim (Bool-cases (str_eq x id)) [
        | inl e ↦ inr (f.has y (subst (λ z. Memᴰ y (children z)) ((str_eq_iff x id).0 e) m))
        | inr e ↦ inl (ground (arith, old, e))
      ]
      | inr new ↦ inr new
    ];
    reached = λ x h. elim (f.reached x h) [
      | inl old ↦ elim (Bool-cases (str_eq x id)) [
        | inl e ↦
            inr (id, Memᴰ.head refl, subst (Reach children id) (sym ((str_eq_iff x id).0 e)) here)
        | inr e ↦ inl (ground (arith, old, e))
      ]
      | inr (i, m, p) ↦ inr (id, Memᴰ.head refl, through m p)
    ];
  }
    where
      itself : (x : Str) → x ≡ id → is_listed x (id ∷ seen) ≡ true
      itself x e = let same : str_eq x id ≡ true = (str_eq_iff x id).1 e in ground (arith, same)

  pub visit-Visited :
      (rounds : ℕ) (id : Str) (seen after : List Str)
      → visit children rounds id seen ≡ ok after
      → Visited (id ∷ []) seen after
  unfolding visit
  visit-Visited zero id seen after h = absurd (err-ne-ok h)
  visit-Visited (suc rounds) id seen after h = elim (Bool-cases (is_listed id seen)) [
    | inl e ↦
        subst (Visited (id ∷ []) seen)
          (ok_inj (
            ap
              (λ b. elim b [
                | true ↦ ok seen
                | false ↦ visit_each (visit children rounds) (children id) (id ∷ seen)
              ])
              (sym e)
            ∙ h))
          (old id seen e)
    | inr e ↦ with_itself id seen after (
        each-Visited (visit children rounds) (visit-Visited rounds) (children id) (id ∷ seen) after
          (ap
              (λ b. elim b [
                | true ↦ ok seen
                | false ↦ visit_each (visit children rounds) (children id) (id ∷ seen)
              ])
              (sym e)
            ∙ h))
  ]
    where
      old : (id : Str) (seen : List Str) → is_listed id seen ≡ true → Visited (id ∷ []) seen seen
      old id seen e = record {
        grows = λ x h. h;
        has = λ x m. ap (λ z. is_listed z seen) (Memᴰ.eq_of_singleton m) ∙ e;
        closed = λ x y h m. inl h;
        reached = λ x h. inl h;
      }
