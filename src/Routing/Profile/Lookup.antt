-- ===== src/Routing/Profile/Lookup.antt =====
-- validation-profile-registry.ts: the constructor, and what `resolve` finds in the registry that it
-- builds.
use chunsik_bot.Base.{
  arith, false, some, List, [], ◌∷◌, In, contains, ◌==◌, string_eq, ◌≡◌, refl, sym, ◌∙◌, ap, inl,
  inr, ◌≢◌, subst, eq_of_beq, not-eq-true,
}
use chunsik_bot.Base.Result.{ok, bind-eq-ok, then-eq-ok, ok-injective, require-eq-ok}
use chunsik_bot.Base.Sort.{sort}
use chunsik_bot.Base.Sort.Laws.{In-sort_iff}
use chunsik_bot.Base.Membership.{find-some, find_unique}
use chunsik_bot.Base.Platform.{Platform}
use chunsik_bot.Routing.Contracts.{ValidationProfileId}
use chunsik_bot.Routing.Profile.{
  ValidationProfileConfiguration, ValidationProfileDefinition, definition_of, normalize,
  normalize_all, new_profile_registry, resolve, by_profile_id,
}

normalize-profile_id :
    (platform : Platform) (c : ValidationProfileConfiguration) {d : ValidationProfileDefinition}
    → normalize platform c ≡ ok d
    → d.profile_id ≡ c.profile_id
unfolding normalize definition_of
normalize-profile_id platform c h = ground arith

module _ (platform : Platform) where
  -- Each configuration has its definition, no two of one id, and nothing else is there.
  record Normalizes (seen : List ValidationProfileId) (cs : List ValidationProfileConfiguration)
      (ds : List ValidationProfileDefinition) : Type 0 where
    pub covers :
        (c : ValidationProfileConfiguration)
        → In c cs
        → (d : ValidationProfileDefinition) × (normalize platform c ≡ ok d) × In d ds
    pub comes :
        (d : ValidationProfileDefinition)
        → In d ds
        → (contains seen d.profile_id ≡ false)
          × (c : ValidationProfileConfiguration) × In c cs
          × (normalize platform c ≡ ok d)
    pub unique :
        (a b : ValidationProfileDefinition)
        → In a ds
        → In b ds
        → a.profile_id ≡ b.profile_id
        → a ≡ b

  not_seen :
      (seen : List ValidationProfileId) (id other : ValidationProfileId)
      → contains (id ∷ seen) other ≡ false
      → (contains seen other ≡ false) × (other ≢ id)
  not_seen seen id other h = ground (arith, string_eq.agrees other id)

  Normalizes-cons :
      (seen : List ValidationProfileId) (c : ValidationProfileConfiguration)
      (d : ValidationProfileDefinition) {cs : List ValidationProfileConfiguration}
      {ds : List ValidationProfileDefinition}
      → contains seen c.profile_id ≡ false
      → normalize platform c ≡ ok d
      → Normalizes (c.profile_id ∷ seen) cs ds
      → Normalizes seen (c ∷ cs) (d ∷ ds)
  Normalizes-cons seen c d {cs} {ds} fresh normal rest = record {
    covers = λ x m. elim m [
      | inl s ↦ (d, ap (normalize platform) s ∙ normal, inl refl)
      | inr l ↦ let (e, n, i) = rest.covers x l in (e, n, inr i)
    ];
    comes = λ e m. elim m [
      | inl s ↦ (
        subst (λ id. contains seen id ≡ false) (sym (of_first e s)) fresh,
        c,
        inl refl,
        normal ∙ ap ok (sym s),
      )
      | inr l ↦
          let (unseen, x, i, n) = rest.comes e l in
          ((not_seen seen c.profile_id e.profile_id unseen).0, x, inr i, n)
    ];
    unique = λ a b m n same. elim m [
      | inl s ↦ elim n [ inl t ↦ s ∙ sym t | inr l ↦ absurd (other b l (sym same ∙ of_first a s)) ]
      | inr k ↦ elim n [
        | inl t ↦ absurd (other a k (same ∙ of_first b t))
        | inr l ↦ rest.unique a b k l same
      ]
    ];
  }
    where
      of_first : (e : ValidationProfileDefinition) → e ≡ d → e.profile_id ≡ c.profile_id
      of_first e s =
          ap (λ (z : ValidationProfileDefinition). z.profile_id) s
          ∙ normalize-profile_id platform c normal

      other : (e : ValidationProfileDefinition) → In e ds → e.profile_id ≢ c.profile_id
      other e l = (not_seen seen c.profile_id e.profile_id (rest.comes e l).0).1

  normalize_all-eq-ok :
      (seen : List ValidationProfileId) (cs : List ValidationProfileConfiguration)
      {ds : List ValidationProfileDefinition}
      → normalize_all platform seen cs ≡ ok ds
      → Normalizes seen cs ds
  unfolding normalize_all
  normalize_all-eq-ok seen [] h = subst (Normalizes seen []) (ok-injective _ refl h) (record {
    covers = λ c m. elim m [ ];
    comes = λ d m. elim m [ ];
    unique = λ a b m n same. elim m [ ];
  })
  normalize_all-eq-ok seen (c ∷ cs) {ds} h =
      let (fresh, h1) = then-eq-ok _ _ h in
      let (d, normal, h2) = bind-eq-ok _ _ h1 in
      let (others, all_rest, h3) = bind-eq-ok _ _ h2 in
      subst (Normalizes seen (c ∷ cs)) (ok-injective _ refl h3) (
        Normalizes-cons seen c d (not-eq-true _ (require-eq-ok _ _ fresh)) normal
          (normalize_all-eq-ok (c.profile_id ∷ seen) cs all_rest))

  -- `resolve` gives the normal form of each configuration, and nothing else.
  pub record Resolves (cs : List ValidationProfileConfiguration)
      (profiles : List ValidationProfileDefinition) : Type 0 where
    pub stored :
        (c : ValidationProfileConfiguration)
        → In c cs
        → (d : ValidationProfileDefinition) × (normalize platform c ≡ ok d)
          × (resolve profiles c.profile_id ≡ some d)
    pub only :
        (id : ValidationProfileId) (d : ValidationProfileDefinition)
        → resolve profiles id ≡ some d
        → (c : ValidationProfileConfiguration) × In c cs
          × (normalize platform c ≡ ok d)
          × (c.profile_id ≡ id)

  sorted-Resolves :
      (cs : List ValidationProfileConfiguration) (ds : List ValidationProfileDefinition)
      → Normalizes [] cs ds
      → Resolves cs (sort (by_profile_id platform) ds)
  unfolding resolve
  sorted-Resolves cs ds n = record {
    stored = λ c m.
        let (d, normal, i) = n.covers c m in
        let same = normalize-profile_id platform c normal in
        (
          d,
          normal,
          find_unique (λ (x : ValidationProfileDefinition). x.profile_id == c.profile_id)
              (sort (by_profile_id platform) ds) d ((In-sort_iff (by_profile_id platform) d ds).1 i)
              ((string_eq.agrees _ _).1 same)
              (λ x l e.
                n.unique x d ((In-sort_iff (by_profile_id platform) x ds).0 l) i
                  (eq_of_beq x.profile_id c.profile_id e ∙ sym same)),
        );
    only = λ id d e.
        let (l, same) =
          find-some (λ (x : ValidationProfileDefinition). x.profile_id == id)
            (sort (by_profile_id platform) ds) e in
        let (fresh, c, i, normal) = n.comes d ((In-sort_iff (by_profile_id platform) d ds).0 l) in
        (
          c,
          i,
          normal,
          sym (normalize-profile_id platform c normal) ∙ eq_of_beq d.profile_id id same,
        );
  }

-- When the constructor throws nothing, `resolve` gives for the id of each configuration its normal form,
-- and whatever `resolve` gives is the normal form of a configuration with that id.
pub new_profile_registry-Resolves :
    (platform : Platform) (cs : List ValidationProfileConfiguration)
    {profiles : List ValidationProfileDefinition}
    → new_profile_registry platform cs ≡ ok profiles
    → Resolves platform cs profiles
unfolding new_profile_registry
new_profile_registry-Resolves platform cs h =
    let (full, h1) = then-eq-ok _ _ h in
    let (ds, normal, h2) = bind-eq-ok _ _ h1 in
    subst (Resolves platform cs) (ok-injective _ refl h2)
      (sorted-Resolves platform cs ds (normalize_all-eq-ok platform [] cs normal))
