-- ===== src/ChangeSets/World/Rows.antt =====
-- What an operation on one change set of app/services/change_set_store.py does to the rows of all.
use test_gpt_local.Prelude.{◌≡◌, refl, ap, subst, String, Option, none, some, inl, inr, Bool-cases}
use test_gpt_local.Prelude.Text.{◌==◌, eq_iff}
use test_gpt_local.Prelude.Dict
use test_gpt_local.Prelude.Dict.{Dict, get-put}
use test_gpt_local.ChangeSets.State.{ChangeSet, Local}
use test_gpt_local.ChangeSets.Commit.{Outcome}
use test_gpt_local.ChangeSets.World.{Stored, World, local_of, put_local, run_on, with_set}

-- What became of the row with an id.
pub data Related (R : ChangeSet → ChangeSet → Type 0) : Option Stored → Option Stored → Type 0 where
  absent : Related R none none
  present : {s t : Stored} → R s.row t.row → Related R (some s) (some t)

-- The second table has the ids of the first, and the relation takes each row to the one that it has.
abbrev pub Evolves : (R : ChangeSet → ChangeSet → Type 0) → Dict Stored → Dict Stored → Type 0
Evolves R d e = (id : String) → Related R (Dict.get id d) (Dict.get id e)

module _ (R : ChangeSet → ChangeSet → Type 0) where
  pub Related-back :
      {o o' : Option Stored} (s' : Stored)
      → Related R o o'
      → o' ≡ some s'
      → (s : Stored) × (o ≡ some s) × R s.row s'.row
  Related-back s' absent e = cc
  Related-back s' (present {s} {t} r) e =
      let t_is : t ≡ s' = cc in (s, refl, subst (λ x. R s.row x.row) t_is r)

  pub Related-forth :
      {o o' : Option Stored} (s : Stored)
      → Related R o o'
      → o ≡ some s
      → (s' : Stored) × (o' ≡ some s') × R s.row s'.row
  Related-forth s absent e = cc
  Related-forth s (present {s = t} {t = s'} r) e =
      let t_is : t ≡ s = cc in (s', refl, subst (λ x. R x.row s'.row) t_is r)

  module _ (same : (r : ChangeSet) → R r r) where
    Related-refl : (o : Option Stored) → Related R o o
    Related-refl none = absent
    Related-refl (some s) = present (same s.row)

    pub Evolves-refl : (d : Dict Stored) → Evolves R d d
    Evolves-refl d id = Related-refl (Dict.get id d)

    -- One entry is replaced.
    pub put-Evolves :
        (k : String) (s t : Stored) (d : Dict Stored)
        → Dict.get k d ≡ some s
        → R s.row t.row
        → Evolves R d (Dict.put k t d)
    put-Evolves k s t d g r id = elim (Bool-cases (k == id)) [
      | inl b ↦
          let found : Dict.get id d ≡ some s =
            subst (λ x. Dict.get x d ≡ some s) ((eq_iff k id).0 b) g in
          rw (get-put k id t d, b, found) (present r)
      | inr b ↦ rw (get-put k id t d, b) (Related-refl (Dict.get id d))
    ]

    pub with_set-Evolves :
        {A : Type 0} (f : Local → Outcome A) (id : String) (w : World)
        → ((l : Local) → R l.row (f l).1.row)
        → Evolves R w.sets (with_set f id w).1.sets
    unfolding with_set local_of put_local
    with_set-Evolves f id w h = from (Dict.get id w.sets) refl
      where
        from :
            (o : Option Stored) → Dict.get id w.sets ≡ o → Evolves R w.sets (run_on f id w o).1.sets
        from none e = Evolves-refl w.sets
        from (some s) e = put-Evolves id s _ w.sets e (h (local_of w s))

    -- A row is added under a new id.
    pub put-forth :
        (k : String) (t s : Stored) (d : Dict Stored) (id : String)
        → Dict.get k d ≡ none
        → Dict.get id d ≡ some s
        → Dict.get id (Dict.put k t d) ≡ some s
    put-forth k t s d id fresh e = elim (Bool-cases (k == id)) [
      | inl b ↦ cc (fresh, e, ap (λ x. Dict.get x d) ((eq_iff k id).0 b))
      | inr b ↦ rw (get-put k id t d, b) e
    ]

  Related-trans :
      {o p q : Option Stored}
      → ((a b c : ChangeSet) → R a b → R b c → R a c)
      → Related R o p
      → Related R p q
      → Related R o q
  Related-trans trans absent absent = absent
  Related-trans trans (present r) (present r') = present (trans _ _ _ r r')

  pub Evolves-trans :
      (d e f : Dict Stored)
      → ((a b c : ChangeSet) → R a b → R b c → R a c)
      → Evolves R d e
      → Evolves R e f
      → Evolves R d f
  Evolves-trans d e f trans a b id = Related-trans trans (a id) (b id)
