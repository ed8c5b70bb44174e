-- ===== src/Proxy/Failover.antt =====
-- proxy.py: reconcile_exhausted, _bootstrap_session_token, _patch_json_model_field, the forward loop of
-- _serve for a billable request with its source, and the debit after it, _reconcile_partial_relay
-- included. What answers from outside is `World`, by the number of the attempt.
use ctc.Common.{
  ℕ, zero, suc, ◌+◌, ◌≡◌, String, Bool, true, false, not, ◌&&◌, Option, none, some, List, [], ◌∷◌,
  ℤ, pos, ltb_ℤ, same_text, codes, ◌==◌, map, if◌then◌else◌,
}
use ctc.Domain.{UserId, CycleId, EventId, Time}
use ctc.Store.{Db, Result}
use ctc.Quota.{UserInfo, QuotaValue, Cache, get, set_exhausted}
use ctc.Engine.Pledge.{Live}
use ctc.Engine.Reconcile.{Seen, reconcile_giver}
use ctc.Engine.Consume.{Tags}
use ctc.Routing.{Source, ConsumerIdentity, Health, debit}
use ctc.Routing.Select.{PatRegistry, ParticipantsMode, key_of, select_source}
use ctc.Routing.Pin.{SessionKey, SessionPin, pin_source}
use ctc.Json.{Text, Json, null, bool, int, float, str, obj, Fields, field, empty, lookup, finite}
use ctc.Metering.{is_empty, extract_total_nano_aiu}
use ctc.Proxy.{
  is_falsy, is_quota_exceeded_402, is_invalid_auto_mode_selector_401, is_pat_rejected_401,
}
pub mod Sources

pub record Response : Type 0 where
  pub status : ℕ
  pub content_type : Text
  pub body : Text

-- How far a relay that raised had got.
pub record RelayState : Type 0 where
  pub head_sent : Bool
  pub status : ℕ
  pub content_type : Text
  pub body : Option Text

abbrev pub untouched : RelayState
untouched = record { head_sent = false; status = 0; content_type = []; body = none }

-- A request of the upstream raises, or is answered; the relay of the answer may raise.
pub data Reply : Type 0 where
  no_answer : Reply
  answered : Response → Option RelayState → Reply

-- The part of a request that the loop changes: the PAT, the session token's header and the body.
pub record Sent : Type 0 where
  pub pat : ℕ
  pub token : Json
  pub body : Text

pub record World : Type 0 where
  pub upstream : ℕ → Sent → Reply
  -- The status and the decoded body of POST /models/session; `none` where it raises.
  pub post_session : ℕ → Source → Option (ℕ × Option Json)
  pub fetch_user : ℕ → ℕ → Option UserInfo
  pub now : ℕ → Time
  pub new_id : ℕ → EventId
  pub loads : Text → Option Json
  pub dumps : Json → Text

-- What `_bootstrap_session_token` returns: the dict that has a session token.
pub record Healed : Type 0 where
  pub session_token : Json
  pub selected_model : Option Json
  pub expires_at : Option Json

abbrev healed_with : Fields → Option Json → Option Healed
healed_with fields none = none
healed_with fields (some token) = some (record {
  session_token = token;
  selected_model = lookup "selected_model" fields;
  expires_at = lookup "expires_at" fields;
})

abbrev healed_of : Option Json → Option Healed
healed_of (some (obj fields)) = healed_with fields (lookup "session_token" fields)
healed_of _ = none

abbrev bootstrap_answer : Option (ℕ × Option Json) → Option Healed
bootstrap_answer none = none
bootstrap_answer (some (status, answer)) = if not (status == 200) then none else healed_of answer

unfoldable pub bootstrap_session_token : World → ℕ → Source → Option Healed
bootstrap_session_token world n source = bootstrap_answer (world.post_session n source)

-- `payload[key] = v`
unfoldable pub set_field : String → Json → Fields → Fields
set_field k v empty = field k v empty
set_field k v (field j w fields) =
    if same_text j k then field k v fields else field j w (set_field k v fields)

abbrev is_text : String → Json → Bool
is_text s (str t) = same_text t s
is_text s _ = false

abbrev patch_model : World → Text → String → Fields → Option Json → Text
patch_model world body model fields none = body
patch_model world body model fields (some m) =
    if is_text model m then body else world.dumps (obj (set_field "model" (str model) fields))

abbrev patch_decoded : World → Text → String → Option Json → Text
patch_decoded world body model (some (obj fields)) =
    patch_model world body model fields (lookup "model" fields)
patch_decoded world body model _ = body

-- The guards around its call repeat its own tests.
unfoldable pub patch_json_model_field : World → Text → String → Text
patch_json_model_field world body model = patch_decoded world body model (world.loads body)

-- A time to expire, in whole seconds; only a number counts, and True and False are numbers.
abbrev pub number_of : Option Json → Option Time
number_of (some (int (pos n))) = some n
number_of (some (int _)) = some 0
number_of (some (bool b)) = some (if b then 1 else 0)
number_of (some (float (finite negative whole _))) = some (if negative then 0 else whole)
number_of _ = none

-- The state of the loop.
pub record Flight : Type 0 where
  pub db : Db
  pub seen : Seen
  pub cache : Cache
  pub pins : List SessionPin
  pub source : Source
  pub exclude : List ℕ
  pub token : Json
  pub body : Text

pub data Ending : Type 0 where
  relayed buffered : Response → Ending
  failed : RelayState → Ending

pub data Next : Type 0 where
  stop : Ending → Flight → Next
  retry : Flight → Next

abbrev pub sent_of : Flight → Sent
sent_of f = record { pat = f.source.pat; token = f.token; body = f.body }

abbrev pub ending_of : Reply → Ending
ending_of no_answer = failed untouched
ending_of (answered r none) = relayed r
ending_of (answered r (some state)) = failed state

abbrev entitlement_of : Option QuotaValue → Option ℤ
entitlement_of none = none
entitlement_of (some v) = v.entitlement

module _ (world : World) (pats : PatRegistry) (ttl : ℕ) (cycle_id : CycleId) where
  -- The immediate reconcile with nothing remaining, if the entitlement is known; what it raises is
  -- swallowed.
  abbrev settle_burn : ℕ → UserId → Option ℤ → Seen → Db → Seen × Db
  settle_burn n giver_id none seen s = (seen, s)
  settle_burn n giver_id (some ent) seen s =
      if ltb_ℤ ent (pos 0)
      then (seen, s)
      else let (seen', r) =
          reconcile_giver (world.new_id n) cycle_id giver_id
            (some (record { entitlement = some ent; remaining = some (pos 0) })) (world.now n) true
            seen s in
        (seen', r.1)

  unfoldable pub reconcile_exhausted : ℕ → UserId → Flight → Flight
  reconcile_exhausted n giver_id f =
      let (v, cache) =
        get ttl pats.pat_for (world.fetch_user n) giver_id (world.now n) (world.now n) f.cache in
      let (seen, s) = settle_burn n giver_id (entitlement_of v) f.seen f.db in
      record f { db = s; seen = seen; cache = set_exhausted giver_id (world.now n) cache }

module _ (world : World) (pats : PatRegistry) (ttl : ℕ) (mode : ParticipantsMode) (health : Health)
    (cycle_id : CycleId) (consumer : ConsumerIdentity) (pin_key : Option SessionKey) where
  unfoldable pub next_source : Flight → Option Source
  next_source f = select_source pats health f.exclude mode f.db cycle_id consumer

  unfoldable pub excluding : Flight → Flight
  excluding f = record f { exclude = key_of f.source ∷ f.exclude }

  abbrev pub retry_with : Response → Flight → Option Source → Next
  retry_with r f none = stop (buffered r) f
  retry_with r f (some nxt) = retry (record f { source = nxt })

  -- Exclude the source and select again.
  unfoldable pub reselect : Response → Flight → Next
  reselect r f = retry_with r (excluding f) (next_source (excluding f))

  abbrev pub on_quota : ℕ → Response → Flight → Option Bool → Next
  on_quota n r f none = stop (failed untouched) f
  on_quota n r f (some true) =
      reselect r (reconcile_exhausted world pats ttl cycle_id n f.source.giver_id f)
  on_quota n r f (some false) = stop (buffered r) f

  unfoldable pub after_402 : ℕ → Response → Flight → Next
  after_402 n r f = on_quota n r f (is_quota_exceeded_402 world.loads r.status r.body)

  abbrev pub patched_body : Flight → Option Json → Text
  patched_body f (some (str model)) = patch_json_model_field world f.body model
  patched_body f _ = f.body

  -- The flight that goes on with a session token that was healed for another giver.
  unfoldable pub healed_flight : ℕ → Flight → Source → Healed → Flight
  healed_flight n f nxt healed = record f {
    source = nxt;
    token = healed.session_token;
    body = patched_body f healed.selected_model;
    pins = pin_source pin_key nxt (number_of healed.expires_at) (world.now n) f.pins;
  }

  abbrev pub heal_with : ℕ → Response → Flight → Source → Option Healed → Next
  heal_with n r f nxt none = stop (buffered r) f
  heal_with n r f nxt (some healed) = retry (healed_flight n f nxt healed)

  abbrev pub heal_from : ℕ → Response → Flight → Option Source → Next
  heal_from n r f none = stop (buffered r) f
  heal_from n r f (some nxt) = heal_with n r f nxt (bootstrap_session_token world n nxt)

  unfoldable pub after_401 : ℕ → Response → Flight → Next
  after_401 n r f =
      if not (is_falsy f.token) && is_invalid_auto_mode_selector_401 r.status r.body
      then heal_from n r (excluding f) (next_source (excluding f))
      else if is_pat_rejected_401 r.status r.body
      then reselect r f
      else stop (buffered r) f

  -- The body of the loop while attempts are left; an answer whose body cannot be read raises.
  unfoldable pub after_reply : ℕ → Reply → Flight → Next
  after_reply n no_answer f = stop (failed untouched) f
  after_reply n (answered r none) f =
      if r.status == 402
      then after_402 n r f
      else if r.status == 401
      then after_401 n r f
      else stop (relayed r) f
  after_reply n (answered r (some state)) f =
      if r.status == 402
      then stop (failed untouched) f
      else if r.status == 401
      then stop (failed untouched) f
      else stop (failed state) f

  -- The sources that are tried from here on, the ending and the last state.
  abbrev pub go_on :
      Source → (Flight → List Source × (Ending × Flight)) → Next → List Source × (Ending × Flight)
  go_on source rest (stop e f) = (source ∷ [], (e, f))
  go_on source rest (retry f) = (source ∷ (rest f).0, (rest f).1)

  -- The loop with `left` attempts after this one.
  unfoldable pub forward : ℕ → ℕ → Flight → List Source × (Ending × Flight)
  forward zero n f = (f.source ∷ [], (ending_of (world.upstream n (sent_of f)), f))
  forward (suc left) n f =
      go_on f.source (λ f'. forward left (suc n) f')
        (after_reply n (world.upstream n (sent_of f)) f)

-- The cost of what came back: of a whole 200, or of the part of one that a broken relay had got.
unfoldable pub billed_cost : World → Ending → Option ℤ
billed_cost world (relayed r) =
    if r.status == 200
    then some (extract_total_nano_aiu world.loads r.body r.content_type)
    else none
billed_cost world (buffered r) = none
billed_cost world (failed state) =
    if state.status == 200
    then some (
        extract_total_nano_aiu world.loads (elim state.body [ none ↦ [] | some b ↦ b ])
          state.content_type)
    else none

-- The debit, whose exceptions are swallowed.
unfoldable pub settle_cost :
    EventId → (ℕ → EventId) → CycleId → ConsumerIdentity → Time → Tags → Source → Option ℤ → Db → Db
settle_cost last_id new_id cycle_id consumer ts tags source none s = s
settle_cost last_id new_id cycle_id consumer ts tags source (some cost) s =
    (debit last_id new_id cycle_id consumer source cost ts tags s).1
