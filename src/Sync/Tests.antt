-- ===== src/Sync/Tests.antt =====
-- The sync rules at small inputs.
use xms_backend.Prelude.Json.{Value, string}
use xms_backend.Prelude.Maps.{lookup}
use xms_backend.Prelude.Texts.{trim, is_space}
use xms_backend.Prelude.{
  String, true, false, none, some, [], ◌∷◌, ◌≡◌, ◌≢◌, ◌⊎◌, ◌↔◌, refl, Memᴰ, string_key,
}
use xms_backend.Sync.Rules.{
  newest, ReflectionInput, is_reflection, decide_inbound, decide_outbound, decide_by_policy,
  send_by_policy, same_value, time_of, apply, by_newest, hold, hold_older, bidirectional,
  EnqueueInput, decide_enqueue, enqueue, own_origin, outbound_next_attempt, due, given_up,
  classify_http_status, retryable, terminal,
}
use xms_backend.Sync.Ownership.{
  Contested, AreExclusive, inbound_of, outbound_of, applies, sends, one_side_writes,
}
use xms_backend.Sync.Enqueue.{IsQueued, decide_enqueue_iff}
use xms_backend.Sync.Sharing.{resolve_outbound_state_cases}
use xms_backend.Sync.StateMap.{
  StateMapForType, accepts, resolve_inbound_state, resolve_found, resolve_mapped,
  resolve_outbound_state, sharing, direct, by_fallback, refused, not_accepted, tied, alone, target,
  resolve_inbound_state-allowed, SharedState, tied,
}

abbrev to_text : Value → String
to_text (string s) = s
to_text _ = "[object Object]"

abbrev notes : Contested
notes = record {
  policy = newest;
  xms_value = string "ours";
  external_value = string "theirs";
  xms_updated_at = some 10;
  external_updated_at = some 20;
}

abbrev comment : EnqueueInput
comment = record {
  event = "comment.created";
  origin = some "user";
  instance_id = "i1";
  mode = bidirectional;
  subscribed_events = "ticket.updated" ∷ "comment.created" ∷ [];
  has_link = true;
  sync_work_notes = false;
  attachment_visibility = none;
}

abbrev echo : ReflectionInput
echo = record {
  last_outbound_at = some 1000;
  last_outbound_hash = some "abc";
  sys_updated_on = 6000;
  inbound_hash = "abc";
  tolerance_seconds = none;
}

abbrev case_map : StateMapForType
case_map = record {
  inbound = ("3", "resolved") ∷ ("6", "closed") ∷ [];
  outbound = ("new", "1") ∷ ("triaged", "1") ∷ ("closed", "7") ∷ [];
  accept_inbound = some ("resolved" ∷ []);
  fallback = some (("resolved", "new") ∷ ("1", "new") ∷ []);
}

-- The fallback of an accepted state moves the ticket to a state that the map does not accept.
rules_tests :
    (decide_inbound to_text (inbound_of notes) ≡ apply by_newest)
    × (decide_outbound to_text (outbound_of notes) ≡ hold hold_older)
    × (decide_enqueue comment ≡ enqueue)
    × (decide_enqueue (record comment { origin = some "sync:i1" }) ≡ own_origin)
    × (is_reflection echo ≡ true)
    × (is_reflection (record echo { sys_updated_on = 6001 }) ≡ false)
    × (outbound_next_attempt 4 7 ≡ due 600007)
    × (outbound_next_attempt 5 7 ≡ given_up)
    × (classify_http_status 429 ≡ retryable)
    × (classify_http_status 404 ≡ terminal)
    × (resolve_inbound_state case_map "3" "triaged" ("resolved" ∷ []) ≡ direct "resolved")
    × (resolve_inbound_state case_map "3" "triaged" ("new" ∷ []) ≡ by_fallback "new")
    × (resolve_inbound_state case_map "6" "new" ("closed" ∷ []) ≡ refused not_accepted)
    × (resolve_outbound_state case_map "closed" ≡ alone "7")
    × (resolve_outbound_state case_map "triaged"
        ≡ tied (record { value = "1"; shared = "new" ∷ []; canonical = some "new" }))
unfolding decide_inbound decide_outbound decide_by_policy send_by_policy trim is_space
    decide_enqueue is_reflection outbound_next_attempt classify_http_status resolve_inbound_state
    resolve_found resolve_mapped resolve_outbound_state sharing lookup
rules_tests =
    (refl, refl, refl, refl, refl, refl, refl, refl, refl, refl, refl, refl, refl, refl, refl)

one_side_writes_example :
    AreExclusive newest
      (same_value to_text (string "ours") (string "theirs"))
      (time_of (some 10))
      (time_of (some 20))
      (applies (decide_inbound to_text (inbound_of notes)))
      (sends (decide_outbound to_text (outbound_of notes)))
one_side_writes_example = one_side_writes to_text notes

decide_enqueue_iff_example : (decide_enqueue comment ≡ enqueue) ↔ IsQueued comment
decide_enqueue_iff_example = decide_enqueue_iff comment

moved : target (resolve_inbound_state case_map "3" "triaged" ("resolved" ∷ [])) ≡ some "resolved"
unfolding resolve_inbound_state resolve_found resolve_mapped lookup
moved = refl

resolve_inbound_state-allowed_example :
    Memᴰ {A = String} "resolved" ("resolved" ∷ [])
    × ((mapped : String) × (lookup "3" case_map.inbound ≡ some mapped)
        × (mapped ≢ "triaged")
        × (accepts case_map.accept_inbound mapped ≡ true))
resolve_inbound_state-allowed_example =
    resolve_inbound_state-allowed case_map "3" "triaged" ("resolved" ∷ []) "resolved" moved

leaves : lookup "closed" case_map.outbound ≡ some "7"
unfolding lookup
leaves = refl

resolve_outbound_state_cases_example :
    ((resolve_outbound_state case_map "closed" ≡ alone "7")
      × ((other : String) → Memᴰ (other, "7") case_map.outbound → other ≡ "closed"))
    ⊎ ((t : SharedState) × (resolve_outbound_state case_map "closed" ≡ tied t)
        × (t.value ≡ "7")
        × (t.shared ≢ [])
        × ((other : String)
            → Memᴰ other t.shared ↔ (Memᴰ (other, "7") case_map.outbound × (other ≢ "closed"))))
resolve_outbound_state_cases_example = resolve_outbound_state_cases case_map "closed" "7" leaves
