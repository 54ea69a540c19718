-- ===== src/Teardown/Effect.antt =====
-- What the controller does to the world: calls of the API server, of Talos nodes, of the event
-- recorder and the metrics. Each call is put on a trace, newest first, and its answer is a function
-- of the trace so far (`Env`): any server, node, clock and interleaving of other writers is such a
-- function. The Machine that a reconcile works on is a Go pointer whose annotations the code changes
-- in place; it is the other half of the state. What was done before an error stays done.
pub mod Pushes
pub mod Triples
use cluster_api_runtime_exte.Base.{ℕ, String, Bool, true, false, Option, none, some, List, [], ◌∷◌}
use cluster_api_runtime_exte.Base.Dict.{Dict}
use cluster_api_runtime_exte.Teardown.Api.{
  ObjectKey, Machine, Cluster, InfraMachine, Hardware, Secret,
}

-- Go's errors. `not_found` answers to apierrors.IsNotFound; `wrap` is fmt.Errorf with %w, and
-- `transient` the wrap in errTransient.
pub data Error : Type 0 where
  not_found : Error
  other : String → Error
  wrap : String → Error → Error
  transient : Error → Error

-- apierrors.IsNotFound, which looks through wraps.
abbrev pub is_not_found : Error → Bool
is_not_found not_found = true
is_not_found (other _) = false
is_not_found (wrap _ e) = is_not_found e
is_not_found (transient e) = is_not_found e

pub data Result (A : Type 0) : Type 0 where
  ok : A → Result A
  err : Error → Result A

-- talosclient.ServiceInfo: the state and health of a service; `none` for a nil Service.
pub record ServiceInfo : Type 0 where
  pub state : String
  pub healthy : Bool

pub record Member : Type 0 where
  pub id : ℕ
  pub hostname : String

-- machineapi.EtcdMemberListResponse: the members of each message. A nil response is `none`.
abbrev pub MemberList : Type 0
MemberList = Option (List (List Member))

-- A parsed talosconfig.
pub record Config : Type 0 where
  pub text : String

pub record ResetRequest : Type 0 where
  pub graceful : Bool
  pub reboot : Bool
  pub wipe : List String

-- The remote procedures of the Client seam.
pub data Rpc : Type 0 where
  service_info : String → Rpc
  etcd_member_list : Rpc
  etcd_forfeit_leadership : Rpc
  etcd_leave_cluster : Rpc
  etcd_remove_member_by_id : ℕ → Rpc
  reset_generic : ResetRequest → Rpc

pub data Kind : Type 0 where
  machine cluster infra_machine hardware secret : Kind

pub data Severity : Type 0 where
  normal warning : Severity

-- One call, with whether it succeeded where the code looks at that.
pub data Call : Type 0 where
  get : Kind → ObjectKey → Call
  list_machines : String → String → Call
  list_secrets : String → Call
  patch : Dict String → Bool → Call
  create_secret : Secret → Bool → Call
  update_secret : Secret → Bool → Call
  delete_secret : ObjectKey → Bool → Call
  event : Severity → String → Call
  metric : String → String → Call
  dial : String → Bool → Call
  rpc : String → Rpc → Bool → Call
  close : String → Call
  read_clock : Call

abbrev pub Trace : Type 0
Trace = List Call

-- The answers. `patch_machine` is handed the Machine as it was read and the annotations to write.
-- A list of machines comes filtered by the label selectors of the call, which the server applies:
-- the cluster's name, and the control-plane label if the flag is set.
pub record Env : Type 0 where
  pub now : Trace → ℕ
  pub format_time : ℕ → String
  pub parse_time : String → Option ℕ
  pub get_machine : Trace → ObjectKey → Result Machine
  pub get_cluster : Trace → ObjectKey → Result Cluster
  pub get_infra_machine : Trace → ObjectKey → Result InfraMachine
  pub get_hardware : Trace → ObjectKey → Result Hardware
  pub get_secret : Trace → ObjectKey → Result Secret
  pub machines_of : Trace → String → String → Bool → Result (List Machine)
  pub secrets_of : Trace → String → Result (List Secret)
  pub new_patch_helper : Trace → Machine → Option Error
  pub patch_machine : Trace → Machine → Dict String → Option Error
  pub write_secret : Trace → Secret → Option Error
  pub remove_secret : Trace → ObjectKey → Option Error
  pub parse_config : String → Result Config
  pub dial_node : Trace → Config → String → Option Error
  pub answer_services : Trace → String → Result (List (Option ServiceInfo))
  pub answer_members : Trace → String → Result MemberList
  pub answer_rpc : Trace → String → Rpc → Option Error

pub record World : Type 0 where
  pub trace : Trace
  pub machine : Machine

abbrev pub Exec : Type 0 → Type 0
Exec A = World → Result A × World

module _ {A : Type 0} where
  unfoldable pub pure : A → Exec A
  pure a w = (ok a, w)

  unfoldable pub raise : Error → Exec A
  raise e w = (err e, w)

-- The machine in hand.
unfoldable pub this : Exec Machine
this w = (ok w.machine, w)

abbrev pub push : Call → World → World
push c w = record w { trace = c ∷ w.trace }

unfoldable pub record_call : Call → Exec (Unit {0})
record_call c w = (ok tt, push c w)

-- A call that answers with a value, put on the trace.
unfoldable pub ask : {A : Type 0} → (Trace → Result A) → Call → Exec A
ask answer c w = (answer w.trace, push c w)

abbrev pub succeeded : Option Error → Bool
succeeded none = true
succeeded (some _) = false

abbrev pub outcome : Option Error → Result (Unit {0})
outcome none = ok tt
outcome (some e) = err e

-- A call that answers with an error or nil, put on the trace with its success.
unfoldable pub tell : (Trace → Option Error) → (Bool → Call) → Exec (Unit {0})
tell answer c w = let e = answer w.trace in (outcome e, push (c (succeeded e)) w)

-- A remote call that answers with a value, put on the trace with its success.
abbrev pub answered : {A : Type 0} → Result A → Bool
answered (ok _) = true
answered (err _) = false

unfoldable pub consult : {A : Type 0} → (Trace → Result A) → (Bool → Call) → Exec A
consult answer c w = let r = answer w.trace in (r, push (c (answered r)) w)

-- Reads the clock.
unfoldable pub clock : Env → Exec ℕ
clock env w = (ok (env.now w.trace), push read_clock w)

-- `defer c.Close()`: the body runs, then the client is closed, whatever the body returned.
unfoldable pub closing : {A : Type 0} → String → Exec A → Exec A
closing address body w = let (r, w') = body w in (r, push (close address) w')

-- `if err != nil { … }` where both sides go on.
abbrev pub resume : {A B : Type 0} → Result A → (A → Exec B) → (Error → Exec B) → Exec B
resume (ok a) f g = f a
resume (err e) f g = g e

unfoldable pub handle : {A B : Type 0} → Exec A → (A → Exec B) → (Error → Exec B) → Exec B
handle m f g w = let (r, w') = m w in resume r f g w'

abbrev pub continue : {A B : Type 0} → Result A → (A → Exec B) → Exec B
continue (ok a) f w = f a w
continue (err e) f w = (err e, w)

-- A value that may be there.
abbrev pub cases {ℓ κ} : {A : Type ℓ} {B : Type κ} → Option A → (A → B) → B → B
cases none f n = n
cases (some a) f n = f a

-- To open this is to open all of the above.
infixl 10 ◌>>=◌ ◌>>◌
unfoldable pub ◌>>=◌ : {A B : Type 0} → Exec A → (A → Exec B) → Exec B
unfolding pure raise this record_call ask tell consult clock closing handle
◌>>=◌ m f w = let (r, w') = m w in continue r f w'

abbrev pub ◌>>◌ : {A B : Type 0} → Exec A → Exec B → Exec B
m >> k = m >>= λ _. k
