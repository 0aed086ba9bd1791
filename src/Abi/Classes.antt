-- ===== src/Abi/Classes.antt =====
-- crates/abi/src/lib.rs: the resource classes, their equality and the URI segments that name them.
use selium.Base.{
  ℕ, Bool, true, ◌≡◌, refl, sym, ap, ◌∙◌, ◌↔◌, nat_beq, nat_beq_iff, Eq, List, [], ◌∷◌, get_or,
  Option, none, some, if◌then◌else◌, ◌==◌, nat_eq,
}
use selium.Base.Text.{Text, codes, list_eq}

pub data ResourceClass : Type 0 where
  shared_region shared_mapping signal tcp_listener tcp_stream udp_socket durable_log blob_store
        process activity_log metering_stream guest_log host_queue cpu :
      ResourceClass

-- The discriminant, which the derived equality compares.
abbrev pub discriminant : ResourceClass → ℕ
discriminant shared_region = 0
discriminant shared_mapping = 1
discriminant signal = 2
discriminant tcp_listener = 3
discriminant tcp_stream = 4
discriminant udp_socket = 5
discriminant durable_log = 6
discriminant blob_store = 7
discriminant process = 8
discriminant activity_log = 9
discriminant metering_stream = 10
discriminant guest_log = 11
discriminant host_queue = 12
discriminant cpu = 13

abbrev classes : List ResourceClass
classes =
    shared_region ∷ shared_mapping ∷ signal ∷ tcp_listener ∷ tcp_stream ∷ udp_socket ∷ durable_log
    ∷ blob_store ∷ process ∷ activity_log ∷ metering_stream ∷ guest_log ∷ host_queue ∷ []

abbrev class_at : ℕ → ResourceClass
class_at n = get_or classes n cpu

class_at-discriminant : (c : ResourceClass) → class_at (discriminant c) ≡ c
class_at-discriminant shared_region = refl
class_at-discriminant shared_mapping = refl
class_at-discriminant signal = refl
class_at-discriminant tcp_listener = refl
class_at-discriminant tcp_stream = refl
class_at-discriminant udp_socket = refl
class_at-discriminant durable_log = refl
class_at-discriminant blob_store = refl
class_at-discriminant process = refl
class_at-discriminant activity_log = refl
class_at-discriminant metering_stream = refl
class_at-discriminant guest_log = refl
class_at-discriminant host_queue = refl
class_at-discriminant cpu = refl

abbrev pub same_class : ResourceClass → ResourceClass → Bool
same_class c d = nat_beq (discriminant c) (discriminant d)

pub same_class_iff : (c d : ResourceClass) → (same_class c d ≡ true) ↔ (c ≡ d)
same_class_iff c d = (
  λ h.
      sym (class_at-discriminant c)
      ∙ ap class_at ((nat_beq_iff (discriminant c) (discriminant d)).0 h)
      ∙ class_at-discriminant d,
  λ h. (nat_beq_iff (discriminant c) (discriminant d)).1 (ap discriminant h),
)

instance abbrev pub class_eq : Eq ResourceClass
class_eq = record { beq = same_class; beq_iff = same_class_iff }

unfoldable pub uri_segment : ResourceClass → Text
uri_segment shared_region = codes "region"
uri_segment shared_mapping = codes "mapping"
uri_segment signal = codes "signal"
uri_segment tcp_listener = codes "listener"
uri_segment tcp_stream = codes "stream"
uri_segment udp_socket = codes "socket"
uri_segment durable_log = codes "log"
uri_segment blob_store = codes "blob"
uri_segment process = codes "proc"
uri_segment activity_log = codes "activity"
uri_segment metering_stream = codes "metering"
uri_segment guest_log = codes "guest-log"
uri_segment host_queue = codes "queue"
uri_segment cpu = codes "cpu"

-- The arms of `from_uri_segment` in their order.
abbrev pub segment_arms : List (Text × ResourceClass)
segment_arms =
    (codes "region", shared_region)
    ∷ (codes "mapping", shared_mapping)
    ∷ (codes "signal", signal)
    ∷ (codes "listener", tcp_listener)
    ∷ (codes "stream", tcp_stream)
    ∷ (codes "socket", udp_socket)
    ∷ (codes "log", durable_log)
    ∷ (codes "blob", blob_store)
    ∷ (codes "proc", process)
    ∷ (codes "activity", activity_log)
    ∷ (codes "metering", metering_stream)
    ∷ (codes "guest-log", guest_log)
    ∷ (codes "queue", host_queue)
    ∷ (codes "cpu", cpu)
    ∷ []

unfoldable pub first_arm : Text → List (Text × ResourceClass) → Option ResourceClass
first_arm segment [] = none
first_arm segment ((name, c) ∷ arms) = if segment == name then some c else first_arm segment arms

unfoldable pub from_uri_segment : Text → Option ResourceClass
unfolding first_arm
from_uri_segment segment = first_arm segment segment_arms
