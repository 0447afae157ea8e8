-- ===== src/Storage/Laws.antt =====
-- packages/storage-sqlite/src/index.ts: reads of `JsonRepository` after writes.
use chunsik_bot.Base.{
  ◌≡◌, ◌≢◌, sym, ap, ◌∙◌, ◌⊎◌, inl, inr, Bool, true, false, not, some, some-injective, subst, All,
  List, [], ◌∷◌, ◌++◌, refl, Bool-cases, arith, if◌then◌else◌, ◌==◌, string_eq, beq_refl, eq_of_beq,
  In,
}
use chunsik_bot.Base.Membership.{find-some}
use chunsik_bot.Base.Pairs.{Pairwise, All-zip}
use chunsik_bot.Domain.{EntityId}
use chunsik_bot.Storage.{Entity, get, save, delete}

module _ {T : Type 0} ⦃entity : Entity T⦄ where
  open entity use {id_of}

  pub get-save_same : (row : T) (rows : List T) → get (id_of row) (save row rows) ≡ some row
  unfolding get save
  get-save_same row [] = ground (arith, beq_refl (id_of row))
  get-save_same row (other ∷ rows) = ground (arith, beq_refl (id_of row), get-save_same row rows)

  pub get-save_other :
      (row : T) (rows : List T) (id : EntityId)
      → id ≢ id_of row
      → get id (save row rows) ≡ get id rows
  unfolding get save
  get-save_other row [] id n = ground (arith, eq_of_beq (id_of row) id)
  get-save_other row (other ∷ rows) id n = ground (
    arith,
    eq_of_beq (id_of row) id,
    eq_of_beq (id_of other) (id_of row),
    eq_of_beq (id_of other) id,
    get-save_other row rows id n,
  )

  pub In-save :
      (seen row : T) (rows : List T) → In seen (save row rows) → (seen ≡ row) ⊎ In seen rows
  unfolding save
  In-save seen row [] m = elim m [ inl e ↦ inl e | inr none_left ↦ elim none_left [ ] ]
  In-save seen row (other ∷ rows) m = helper (id_of other == id_of row) m (In-save seen row rows)
    where
      helper :
          (same : Bool)
          → In seen (if same then row ∷ rows else other ∷ save row rows)
          → (In seen (save row rows) → (seen ≡ row) ⊎ In seen rows)
          → (seen ≡ row) ⊎ In seen (other ∷ rows)
      helper true (inl e) ih = inl e
      helper true (inr l) ih = inr (inr l)
      helper false (inl e) ih = inr (inl e)
      helper false (inr l) ih = elim (ih l) [ inl e ↦ inl e | inr k ↦ inr (inr k) ]

  pub get-id : (id : EntityId) (rows : List T) {row : T} → get id rows ≡ some row → id_of row ≡ id
  unfolding get
  get-id id rows {row} e = eq_of_beq (id_of row) id (find-some _ rows e).1

  pub get-delete_other :
      (id other : EntityId) (rows : List T) → id ≢ other → get id (delete other rows) ≡ get id rows
  unfolding get delete
  get-delete_other id other [] n = refl
  get-delete_other id other (row ∷ rows) n =
      helper (id_of row == other) refl (get-delete_other id other rows n)
    where
      passes : id_of row ≡ other → (id_of row == id) ≡ false
      passes same = elim (Bool-cases (id_of row == id)) [
        | inl e ↦ absurd (n (sym (eq_of_beq _ _ e) ∙ same))
        | inr e ↦ e
      ]

      helper :
          (b : Bool)
          → (id_of row == other) ≡ b
          → get id (delete other rows) ≡ get id rows
          → get id (if not b then row ∷ delete other rows else delete other rows)
            ≡ get id (row ∷ rows)
      helper true same rest = rw (passes (eq_of_beq _ _ same)) rest
      helper false apart rest = ap (λ found. if id_of row == id then some row else found) rest

  pub get-append :
      (id : EntityId) (rows more : List T) (row : T)
      → get id rows ≡ some row
      → get id (rows ++ more) ≡ some row
  unfolding get
  get-append id [] more row e = cc
  get-append id (other ∷ rows) more row e = ground (arith, get-append id rows more row)

  pub All-save :
      (P : T → Type 0) (row old : T) (rows : List T)
      → get (id_of row) rows ≡ some old
      → (P old → P row)
      → All P rows
      → All P (save row rows)
  unfolding get save
  All-save P row old [] e f h = cc
  All-save P row old (other ∷ rows) e f (ho, hs) =
      helper (id_of other == id_of row) e (λ k. All-save P row old rows k f hs)
    where
      helper :
          (b : Bool)
          → (if b then some other else get (id_of row) rows) ≡ some old
          → (get (id_of row) rows ≡ some old → All P (save row rows))
          → All P (if b then row ∷ rows else other ∷ save row rows)
      helper true is rest = (f (subst P (some-injective is) ho), hs)
      helper false is rest = (ho, rest is)

  pub Pairwise-save :
      (R : T → T → Type 0) (row old : T) (rows : List T)
      → get (id_of row) rows ≡ some old
      → ((s : T) → R s old → R s row)
      → ((s : T) → R old s → R row s)
      → Pairwise R rows
      → Pairwise R (save row rows)
  unfolding get save
  Pairwise-save R row old [] e f g h = cc
  Pairwise-save R row old (other ∷ rows) e f g (ho, hs) =
      helper (id_of other == id_of row) e (λ k. Pairwise-save R row old rows k f g hs)
    where
      helper :
          (b : Bool)
          → (if b then some other else get (id_of row) rows) ≡ some old
          → (get (id_of row) rows ≡ some old → Pairwise R (save row rows))
          → Pairwise R (if b then row ∷ rows else other ∷ save row rows)
      helper true is rest = (
        All-zip (R other) (R other) (R row) rows
            (λ s r _. g s (subst (λ o. R o s) (some-injective is) r)) ho ho,
        hs,
      )
      helper false is rest = (All-save (R other) row old rows is (f other) ho, rest is)
