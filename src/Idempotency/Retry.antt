-- ===== src/Idempotency/Retry.antt =====
-- What a retry under the same key gets from app/storage/idempotency.py.
use test_gpt_local.Prelude.{
  ℕ, ◌-◌, ◌*◌, ◌≡◌, ◌≢◌, ◌∙◌, refl, ap, subst, String, true, false, Option, none, some, inl, inr,
  Bool-cases,
}
use test_gpt_local.Prelude.Text.{◌==◌, eq_iff, eq_refl}
use test_gpt_local.Prelude.Dict
use test_gpt_local.Prelude.Dict.{IsUnique, get-put}
use test_gpt_local.Prelude.Result.{Result, ok, err}
use test_gpt_local.Events.Payload.{text, Fields}
use test_gpt_local.Idempotency.Keys.{
  Entry, Keys, lookup, is_mismatch, truthy, mismatch, cached_of, get_idempotent_result, not_old,
  expire_old_keys, get-fresh_keys,
}
use test_gpt_local.Idempotency.Call.{
  Reply, result, key_mismatch, finish, reply_of, call_or_cached, with_idempotency,
}

-- The key has the hash and the result.
abbrev pub Stored : String → String → Fields → Keys → Type 0
Stored key hash r keys =
    (e : Entry) × (Dict.get key keys ≡ some e) × (e.input_hash ≡ hash) × (e.result ≡ r)

Stored-kept :
    (key hash : String) (r : Fields) (keys keys' : Keys)
    → Dict.get key keys' ≡ Dict.get key keys
    → Stored key hash r keys
    → Stored key hash r keys'
Stored-kept key hash r keys keys' e (x, g, h, s) = (x, e ∙ g, h, s)

is_mismatch-mismatch : (h : String) → is_mismatch (mismatch h) ≡ true
unfolding is_mismatch lookup truthy
is_mismatch-mismatch h = refl

reply_of-result :
    (key : String) (cached r : Fields)
    → reply_of key cached ≡ result r
    → (is_mismatch cached ≡ false) × (cached ≡ r)
unfolding reply_of
reply_of-result key cached r h = elim (Bool-cases (is_mismatch cached)) [
  | inl b ↦ cc (rw b at h)
  | inr b ↦ (b, cc (rw b at h))
]

cached-Stored :
    (key hash : String) (r cached : Fields) (keys : Keys) (o : Option Entry)
    → Dict.get key keys ≡ o
    → cached_of hash o ≡ some cached
    → reply_of key cached ≡ result r
    → Stored key hash r keys
unfolding cached_of
cached-Stored key hash r cached keys none e h k = cc
cached-Stored key hash r cached keys (some x) e h k =
    let (ok_result, same) = reply_of-result key cached r k in
    elim (Bool-cases (x.input_hash == hash)) [
      | inl b ↦ (x, e, (eq_iff x.input_hash hash).0 b, cc (rw b at h))
      | inr b ↦ cc (rw b at h, is_mismatch-mismatch x.input_hash)
    ]

ok_result :
    {Error : Type 0} {r s : Fields}
    → ◌≡◌ {A = Result Error Reply} (ok (result r)) (ok (result s))
    → r ≡ s
ok_result h = cc

ok_reply : {Error : Type 0} {r s : Reply} → ◌≡◌ {A = Result Error Reply} (ok r) (ok s) → r ≡ s
ok_reply h = cc

module _ {World Error : Type 0} (input_hash : String → Fields → String)
    (as_json : Fields → Fields) where
  -- A reply, the world and the keys of two equal outcomes.
  outcome :
      {a b : Result Error Reply} {v w : World} {k l : Keys}
      → ◌≡◌ {A = Result Error Reply × World × Keys} (a, v, k) (b, w, l)
      → (a ≡ b) × (v ≡ w) × (k ≡ l)
  outcome h = (ap (λ x. x.0) h, ap (λ x. x.1) h, ap (λ x. x.2) h)

  finish-Stored :
      (key tool_name hash : String) (now : ℕ) (keys keys' : Keys) (x : Result Error Fields × World)
      (world : World) (r : Fields)
      → as_json r ≡ r
      → finish input_hash as_json key tool_name hash now keys x ≡ (ok (result r), world, keys')
      → Stored key hash r keys'
  unfolding finish
  finish-Stored key tool_name hash now keys keys' (ok s, w) world r j h =
      let (a, _, c) = outcome h in
      subst (Stored key hash r) c (
        record { tool_name = tool_name; input_hash = hash; result = as_json s; created_at = now },
        rw (get-put, eq_refl) refl,
        refl,
        ap as_json (ok_result a) ∙ j,
      )
  finish-Stored key tool_name hash now keys keys' (err e, w) world r j h = cc (ap (λ x. x.0) h)

  call_or_cached-Stored :
      (key tool_name hash : String) (fn : World → Result Error Fields × World) (now : ℕ)
      (keys keys' : Keys) (world world' : World) (r : Fields) (o : Option Fields)
      → as_json r ≡ r
      → get_idempotent_result key hash keys ≡ o
      → call_or_cached input_hash as_json key tool_name hash fn now keys world o
        ≡ (ok (result r), world', keys')
      → Stored key hash r keys'
  unfolding call_or_cached get_idempotent_result
  call_or_cached-Stored key tool_name hash fn now keys keys' world world' r none j e h =
      finish-Stored key tool_name hash now keys keys' (fn world) world' r j h
  call_or_cached-Stored key tool_name hash fn now keys keys' world world' r (some cached) j e h =
      let (a, _, c) = outcome h in
      subst (Stored key hash r) c
        (cached-Stored key hash r cached keys (Dict.get key keys) refl e (ok_reply a))

  Stored-retry :
      (key tool_name : String) (inputs r : Fields) (fn : World → Result Error Fields × World)
      (now : ℕ) (world : World) (keys : Keys)
      → Stored key (input_hash tool_name inputs) r keys
      → is_mismatch r ≡ false
      → with_idempotency input_hash as_json (some key) tool_name inputs fn now world keys
        ≡ (ok (result r), world, keys)
  unfolding with_idempotency get_idempotent_result cached_of call_or_cached reply_of
  Stored-retry key tool_name inputs r fn now world keys (e, g, h, s) m =
      rw (g, h, eq_refl, s, m) refl

  Stored-mismatch :
      (key hash tool_name : String) (inputs r : Fields) (fn : World → Result Error Fields × World)
      (now : ℕ) (world : World) (keys : Keys)
      → Stored key hash r keys
      → hash ≢ input_hash tool_name inputs
      → with_idempotency input_hash as_json (some key) tool_name inputs fn now world keys
        ≡ (ok (key_mismatch key (some (text hash))), world, keys)
  unfolding with_idempotency get_idempotent_result cached_of call_or_cached reply_of is_mismatch
      lookup truthy
  Stored-mismatch key hash tool_name inputs r fn now world keys (e, g, h, s) n =
      elim (Bool-cases (hash == input_hash tool_name inputs)) [
        | inl b ↦ absurd (n ((eq_iff hash (input_hash tool_name inputs)).0 b))
        | inr b ↦ rw (g, h, b) refl
      ]

  -- Where a call under a key returned a result that is not marked as a mismatch, and that JSON keeps
  -- as it is, any later call under the key with the same tool and inputs, on whatever table the entry
  -- of the key is still in, returns that result, and runs nothing: world and keys stay. A call under
  -- the key whose inputs have another hash returns the error, and runs nothing either.
  pub with_idempotency-retry :
      (key tool_name : String) (inputs r : Fields) (fn : World → Result Error Fields × World)
      (now : ℕ) (world world' : World) (keys keys' : Keys)
      → as_json r ≡ r
      → with_idempotency input_hash as_json (some key) tool_name inputs fn now world keys
        ≡ (ok (result r), world', keys')
      → is_mismatch r ≡ false
      → ((fn' : World → Result Error Fields × World) (later : ℕ) (w : World) (keys'' : Keys)
          → Dict.get key keys'' ≡ Dict.get key keys'
          → with_idempotency input_hash as_json (some key) tool_name inputs fn' later w keys''
            ≡ (ok (result r), w, keys''))
        × ((tool : String) (inputs' : Fields) (fn' : World → Result Error Fields × World)
              (later : ℕ) (w : World) (keys'' : Keys)
            → Dict.get key keys'' ≡ Dict.get key keys'
            → input_hash tool_name inputs ≢ input_hash tool inputs'
            → with_idempotency input_hash as_json (some key) tool inputs' fn' later w keys''
              ≡ (ok (key_mismatch key (some (text (input_hash tool_name inputs)))), w, keys''))
  with_idempotency-retry key tool_name inputs r fn now world world' keys keys' j h m =
      let s =
        call_or_cached-Stored key tool_name (input_hash tool_name inputs) fn now keys keys' world
          world' r _ j refl (unfold with_idempotency in h) in
      let kept = Stored-kept key (input_hash tool_name inputs) r keys' in
      (
        λ fn' later w keys'' e.
            Stored-retry key tool_name inputs r fn' later w keys'' (kept keys'' e s) m,
        λ tool inputs' fn' later w keys'' e n.
            Stored-mismatch key (input_hash tool_name inputs) tool inputs' r fn' later w keys''
              (kept keys'' e s) n,
      )

-- Where every key stands once, `expire_old_keys` removes exactly the entries that were created before
-- the cutoff: any other key has the entry that it had.
pub expire_old_keys_lem :
    (hour hours now : ℕ) (key : String) (keys : Keys)
    → IsUnique keys
    → Dict.get key (expire_old_keys hour hours now keys).1
      ≡ not_old (now - hours * hour) (Dict.get key keys)
unfolding expire_old_keys
expire_old_keys_lem hour hours now key keys u = get-fresh_keys (now - hours * hour) key keys u
