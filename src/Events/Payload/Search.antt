-- ===== src/Events/Payload/Search.antt =====
-- What `_find_sensitive_key` of app/services/event_store.py finds, against the fields that stand in a
-- payload.
use test_gpt_local.Prelude.{
  String, ◌≡◌, refl, subst, Bool, true, false, arith, Option, none, some, inl, inr, ◌⊎◌,
  if◌then◌else◌,
}
use test_gpt_local.Events.Payload.{
  Json, null, boolean, number, text, array, object, Items, nil, cons, Fields, end, field, TextRules,
  is_sensitive, or_found, find_nested, find_items, find_fields, find_sensitive_key,
}

-- The field `k: v` stands in a value: directly, in the object of another field, or in an object that
-- is a member of a list.
abbrev mutual
  pub InNested : String → Json → Json → Type 0
  InNested k v (object fs) = InFields k v fs
  InNested k v (array xs) = InItems k v xs
  InNested k v null = ⊥
  InNested k v (boolean b) = ⊥
  InNested k v (number n) = ⊥
  InNested k v (text s) = ⊥

  pub InItems : String → Json → Items → Type 0
  InItems k v nil = ⊥
  InItems k v (cons (object fs) xs) = InFields k v fs ⊎ InItems k v xs
  InItems k v (cons _ xs) = InItems k v xs

  pub InFields : String → Json → Fields → Type 0
  InFields k v end = ⊥
  InFields k v (field j u fs) = ((j ≡ k) × (u ≡ v)) ⊎ (InNested k v u ⊎ InFields k v fs)

module _ (rules : TextRules) where
  or_found-some :
      (a b : Option String) (k : String) → or_found rules a b ≡ some k → (a ≡ some k) ⊎ (b ≡ some k)
  unfolding or_found
  or_found-some none b k e = inr e
  or_found-some (some j) b k e = inl e

  or_found-none : (a b : Option String) → or_found rules a b ≡ none → (a ≡ none) × (b ≡ none)
  unfolding or_found
  or_found-none none b e = (refl, e)
  or_found-none (some j) b e = cc

  if-some :
      (b : Bool) (j k : String) (o : Option String)
      → (if b then some j else o) ≡ some k
      → ((b ≡ true) × (j ≡ k)) ⊎ (o ≡ some k)
  if-some b j k o e = ground arith

  if-none :
      (b : Bool) (j : String) (o : Option String)
      → (if b then some j else o) ≡ none
      → (b ≡ false) × (o ≡ none)
  if-none b j o e = ground arith

  -- The field of a key that is found.
  abbrev pub Found : (String → Json → Type 0) → String → Type 0
  Found In k = (v : Json) × In k v × (is_sensitive rules k v ≡ true)

  mutual
    unfolding find_fields or_found

    Found-nested :
        (u : Json) (k : String) → find_nested rules u ≡ some k → Found (λ j v. InNested j v u) k
    Found-nested (object fs) k e = Found-fields fs k e
    Found-nested (array xs) k e = Found-items xs k e
    Found-nested null k e = cc
    Found-nested (boolean b) k e = cc
    Found-nested (number n) k e = cc
    Found-nested (text s) k e = cc

    Found-items :
        (xs : Items) (k : String) → find_items rules xs ≡ some k → Found (λ j v. InItems j v xs) k
    Found-items nil k e = cc
    Found-items (cons (object fs) xs) k e =
        elim (or_found-some (find_fields rules fs) (find_items rules xs) k e) [
          | inl f ↦ let (v, i, h) = Found-fields fs k f in (v, inl i, h)
          | inr f ↦ let (v, i, h) = Found-items xs k f in (v, inr i, h)
        ]
    Found-items (cons _ xs) k e = Found-items xs k e

    Found-fields :
        (fs : Fields) (k : String)
        → find_fields rules fs ≡ some k
        → Found (λ j v. InFields j v fs) k
    Found-fields end k e = cc
    Found-fields (field j u fs) k e =
        elim (if-some (is_sensitive rules j u) j k
          (or_found rules (find_nested rules u) (find_fields rules fs)) e) [
            | inl (b, same) ↦
                (u, inl (same, refl), subst (λ x. is_sensitive rules x u ≡ true) same b)
            | inr more ↦ elim (or_found-some (find_nested rules u) (find_fields rules fs) k more) [
              | inl f ↦ let (v, i, h) = Found-nested u k f in (v, inr (inl i), h)
              | inr f ↦ let (v, i, h) = Found-fields fs k f in (v, inr (inr i), h)
            ]
          ]

  mutual
    unfolding find_fields or_found

    clean_nested :
        (u : Json) (k : String) (v : Json)
        → find_nested rules u ≡ none
        → InNested k v u
        → is_sensitive rules k v ≡ false
    clean_nested (object fs) k v e i = clean_fields fs k v e i
    clean_nested (array xs) k v e i = clean_items xs k v e i
    clean_nested null k v e i = absurd i
    clean_nested (boolean b) k v e i = absurd i
    clean_nested (number n) k v e i = absurd i
    clean_nested (text s) k v e i = absurd i

    clean_items :
        (xs : Items) (k : String) (v : Json)
        → find_items rules xs ≡ none
        → InItems k v xs
        → is_sensitive rules k v ≡ false
    clean_items nil k v e i = absurd i
    clean_items (cons (object fs) xs) k v e i =
        let (a, b) = or_found-none (find_fields rules fs) (find_items rules xs) e in
        elim i [ inl h ↦ clean_fields fs k v a h | inr h ↦ clean_items xs k v b h ]
    clean_items (cons _ xs) k v e i = clean_items xs k v e i

    clean_fields :
        (fs : Fields) (k : String) (v : Json)
        → find_fields rules fs ≡ none
        → InFields k v fs
        → is_sensitive rules k v ≡ false
    clean_fields end k v e i = absurd i
    clean_fields (field j u fs) k v e i =
        let (clean, more) = if-none (is_sensitive rules j u) j _ e in
        let (a, b) = or_found-none (find_nested rules u) (find_fields rules fs) more in
        elim i [
          | inl (p, q) ↦
              subst (λ x. is_sensitive rules x v ≡ false) p
                (subst (λ x. is_sensitive rules j x ≡ false) q clean)
          | inr (inl h) ↦ clean_nested u k v a h
          | inr (inr h) ↦ clean_fields fs k v b h
        ]

  -- The search finds a key exactly if a sensitive field stands in the payload; the key that it names
  -- is that of such a field.
  pub find_sensitive_key_lem :
      (fs : Fields)
      → ((k : String) → find_sensitive_key rules fs ≡ some k → Found (λ j v. InFields j v fs) k)
        × (find_sensitive_key rules fs ≡ none
            → (k : String) (v : Json) → InFields k v fs
            → is_sensitive rules k v ≡ false)
  unfolding find_sensitive_key
  find_sensitive_key_lem fs = (λ k e. Found-fields fs k e, λ e k v i. clean_fields fs k v e i)
