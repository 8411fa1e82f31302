-- ===== src/Events/Retention/Keeps.antt =====
-- Retention never makes a silent gap: a reader whose cursor is still accepted after `cleanup`
-- (app/services/event_store.py) sees what it would have seen before.
use test_gpt_local.Prelude.{
  ℕ, ◌≤◌, ◌-◌, ◌*◌, ◌≡◌, String, refl, ◌∙◌, Bool, true, false, List, [], ◌∷◌, arith, ltb, leb,
  if◌then◌else◌, Option, max, inl, inr, Bool-cases,
}
use test_gpt_local.Prelude.Int.{ℤ, pos_part}
use test_gpt_local.Prelude.Text.{eq_iff}
use test_gpt_local.Prelude.Dict
use test_gpt_local.Prelude.Dict.{or_else, get-put}
use test_gpt_local.Prelude.Result.{ok}
use test_gpt_local.Events.Store.{Event, Tables, notify}
use test_gpt_local.Events.Query.{selects, select}
use test_gpt_local.Events.Retention.{
  distinct, survives, expire, expire_workspace, expire_all, cleanup,
}

abbrev pub watermark : String → Tables → ℕ
watermark workspace t = or_else (Dict.get workspace t.retention) 0

-- From `t` to `u` the watermarks grow, the processes stay, and the answers to every query that `u`
-- accepts stay.
pub record Retains (t u : Tables) : Type 0 where
  pub grows : (workspace : String) → watermark workspace t ≤ watermark workspace u
  pub processes : u.processes ≡ t.processes
  pub same :
      (workspace : String) (after : ℕ) (process : Option String) (types : List String)
      → watermark workspace u ≤ after
      → select (selects workspace after process types) u.events
        ≡ select (selects workspace after process types) t.events

Retains-refl : (t : Tables) → Retains t t
Retains-refl t = record { grows = λ w. omega arith; processes = refl; same = λ w a p ty h. refl }

Retains-trans : {t u v : Tables} → Retains t u → Retains u v → Retains t v
Retains-trans a b = record {
  grows = λ w. omega (arith, a.grows w, b.grows w);
  processes = b.processes ∙ a.processes;
  same = λ w n p ty h. b.same w n p ty h ∙ a.same w n p ty (omega (arith, b.grows w));
}

select-implied :
    (p q : Event → Bool) (es : List Event)
    → ((e : Event) → p e ≡ true → q e ≡ true)
    → select p (select q es) ≡ select p es
unfolding select
select-implied p q [] h = refl
select-implied p q (e ∷ es) h = ground (arith, h e, select-implied p q es h)

selects-survives :
    (w workspace : String) (through after : ℕ) (process : Option String) (types : List String)
    (e : Event)
    → (w ≡ workspace → through ≤ after)
    → selects workspace after process types e ≡ true
    → survives w through e ≡ true
unfolding selects survives
selects-survives w workspace through after process types e h k =
    ground (arith, eq_iff e.workspace_id workspace, eq_iff e.workspace_id w, h)

expire-Retains :
    (w : String) (through deleted : ℕ) (t : Tables) → Retains t (expire w through (t, deleted)).0
unfolding expire
expire-Retains w through deleted t = elim (Bool-cases (leb through 0)) [
  | inl b ↦ rw b (Retains-refl t)
  | inr b ↦ rw b (record {
    grows = λ v. ground (arith, get-put w v (max (watermark w t) through) t.retention, eq_iff w v);
    processes = refl;
    same = λ v n p ty h. select-implied (selects v n p ty) (survives w through) t.events (λ e.
        selects-survives w v through n p ty e (λ same.
          ground (arith, get-put w v (max (watermark w t) through) t.retention, eq_iff w v, h)));
  })
]

expire_workspace-Retains :
    (cutoff limit : ℕ) (w : String) (r : Tables × ℕ)
    → Retains r.0 (expire_workspace cutoff limit w r).0
unfolding expire_workspace
expire_workspace-Retains cutoff limit w (t, deleted) = expire-Retains w _ deleted t

expire_all-Retains :
    (cutoff limit : ℕ) (ws : List String) (r : Tables × ℕ)
    → Retains r.0 (expire_all cutoff limit ws r).0
unfolding expire_all
expire_all-Retains cutoff limit [] r = Retains-refl r.0
expire_all-Retains cutoff limit (w ∷ ws) r =
    Retains-trans (expire_workspace-Retains cutoff limit w r) (expire_all-Retains cutoff limit ws _)

pub cleanup-tables :
    (day : ℕ) (days max_events : ℤ) (now : ℕ) (t u : Tables) (deleted : ℕ)
    → cleanup day days max_events now t ≡ ok (deleted, u)
    → let r =
        expire_all
          (now - pos_part days * day)
          (pos_part max_events)
          (distinct [] t.events)
          (t, 0) in
      u ≡ (if ltb 0 r.1 then notify r.0 else r.0)
unfolding cleanup
cleanup-tables day days max_events now t u deleted h = ground arith

Retains-notify : (b : Bool) (t u : Tables) → Retains t u → Retains t (if b then notify u else u)
Retains-notify true t u r = record { grows = r.grows; processes = r.processes; same = r.same }
Retains-notify false t u r = r

-- What `cleanup` returns retains: watermarks grow, and every query behind a watermark of the result
-- has the rows that it had before.
pub cleanup-Retains :
    (day : ℕ) (days max_events : ℤ) (now : ℕ) (t u : Tables) (deleted : ℕ)
    → cleanup day days max_events now t ≡ ok (deleted, u)
    → Retains t u
unfolding cleanup
cleanup-Retains day days max_events now t u deleted h =
    rw (cleanup-tables day days max_events now t u deleted h)
      (Retains-notify _ t _ (expire_all-Retains _ _ (distinct [] t.events) (t, 0)))
