-- ===== src/IoManager/Masks.antt =====
-- The event masks of libcocao/iomanager.cc: a mask of READ and WRITE is a pair of flags, and the bit
-- operations of the code act on the flags.
use Prim.Native.Nat.{bit_and, bit_or}
use libcocao.Base.{ℕ, ◌+◌, ◌≡◌, refl, Bool, true, false, not, ◌&&◌, ◌||◌, ◌==◌, if◌then◌else◌}
use libcocao.IoManager.{
  Event, no_event, read, write, has, without, join, real_events, bits, epoll_in, epoll_out,
  epoll_err, epoll_hup,
}

abbrev pub mask_of : Bool → Bool → ℕ
mask_of true true = 5
mask_of true false = 1
mask_of false true = 4
mask_of false false = 0

-- The flag of an event, and the flags without it and with it.
abbrev pub flag : Event → Bool → Bool → Bool
flag no_event r w = false
flag read r w = r
flag write r w = w

abbrev pub cleared : Event → Bool → Bool → ℕ
cleared no_event r w = mask_of r w
cleared read r w = mask_of false w
cleared write r w = mask_of r false

abbrev pub added : Event → Bool → Bool → ℕ
added no_event r w = mask_of r w
added read r w = mask_of true w
added write r w = mask_of r true

pub has_mask : (e : Event) (r w : Bool) → has (mask_of r w) e ≡ flag e r w
unfolding has
has_mask no_event true true = refl
has_mask no_event true false = refl
has_mask no_event false true = refl
has_mask no_event false false = refl
has_mask read true true = refl
has_mask read true false = refl
has_mask read false true = refl
has_mask read false false = refl
has_mask write true true = refl
has_mask write true false = refl
has_mask write false true = refl
has_mask write false false = refl

pub without_mask : (e : Event) (r w : Bool) → without (mask_of r w) e ≡ cleared e r w
unfolding without
without_mask no_event true true = refl
without_mask no_event true false = refl
without_mask no_event false true = refl
without_mask no_event false false = refl
without_mask read true true = refl
without_mask read true false = refl
without_mask read false true = refl
without_mask read false false = refl
without_mask write true true = refl
without_mask write true false = refl
without_mask write false true = refl
without_mask write false false = refl

pub join_mask : (e : Event) (r w : Bool) → join (mask_of r w) e ≡ added e r w
unfolding join
join_mask no_event true true = refl
join_mask no_event true false = refl
join_mask no_event false true = refl
join_mask no_event false false = refl
join_mask read true true = refl
join_mask read true false = refl
join_mask read false true = refl
join_mask read false false = refl
join_mask write true true = refl
join_mask write true false = refl
join_mask write false true = refl
join_mask write false false = refl

pub mask-eq-zero : (r w : Bool) → (mask_of r w == 0) ≡ not (r || w)
mask-eq-zero true true = refl
mask-eq-zero true false = refl
mask-eq-zero false true = refl
mask-eq-zero false false = refl

pub and_mask-eq-zero :
    (a b r w : Bool) → (bit_and (mask_of a b) (mask_of r w) == 0) ≡ not ((a && r) || (b && w))
and_mask-eq-zero true true true true = refl
and_mask-eq-zero true true true false = refl
and_mask-eq-zero true true false true = refl
and_mask-eq-zero true true false false = refl
and_mask-eq-zero true false true true = refl
and_mask-eq-zero true false true false = refl
and_mask-eq-zero true false false true = refl
and_mask-eq-zero true false false false = refl
and_mask-eq-zero false true true true = refl
and_mask-eq-zero false true true false = refl
and_mask-eq-zero false true false true = refl
and_mask-eq-zero false true false false = refl
and_mask-eq-zero false false true true = refl
and_mask-eq-zero false false true false = refl
and_mask-eq-zero false false false true = refl
and_mask-eq-zero false false false false = refl

-- epoll reports only what is asked for (the flags a and b, within r and w), or also EPOLLERR (0x8) on an
-- error and EPOLLHUP (0x10) on a hangup.
abbrev pub reports : Bool → Bool → Bool → Bool → ℕ
reports a b error hangup = mask_of a b + ((if error then 0x8 else 0) + (if hangup then 0x10 else 0))

trouble_seen :
    (a b error hangup : Bool)
    → (bit_and (reports a b error hangup) (bit_or epoll_err epoll_hup) == 0) ≡ not (error || hangup)
trouble_seen true true true true = refl
trouble_seen true true true false = refl
trouble_seen true true false true = refl
trouble_seen true true false false = refl
trouble_seen true false true true = refl
trouble_seen true false true false = refl
trouble_seen true false false true = refl
trouble_seen true false false false = refl
trouble_seen false true true true = refl
trouble_seen false true true false = refl
trouble_seen false true false true = refl
trouble_seen false true false false = refl
trouble_seen false false true true = refl
trouble_seen false false true false = refl
trouble_seen false false false true = refl
trouble_seen false false false false = refl

-- What is made of the registered events on trouble, and of the reported ones without.
abbrev events_of : ℕ → ℕ
events_of ev =
    bit_or (if not (bit_and ev epoll_in == 0) then bits read else 0)
      (if not (bit_and ev epoll_out == 0) then bits write else 0)

registered_events :
    (r w : Bool) → events_of (bit_and (bit_or epoll_in epoll_out) (mask_of r w)) ≡ mask_of r w
unfolding bits
registered_events true true = refl
registered_events true false = refl
registered_events false true = refl
registered_events false false = refl

plain_events : (a b : Bool) → events_of (reports a b false false) ≡ mask_of a b
unfolding bits
plain_events true true = refl
plain_events true false = refl
plain_events false true = refl
plain_events false false = refl

-- The events that idle acts on: what is reported, and on trouble all that is registered.
pub real_reports :
    (a b error hangup r w : Bool)
    → real_events (reports a b error hangup) (mask_of r w)
      ≡ (if error || hangup then mask_of r w else mask_of a b)
unfolding real_events
real_reports a b true hangup r w = rw (trouble_seen a b true hangup) (registered_events r w)
real_reports a b false true r w = rw (trouble_seen a b false true) (registered_events r w)
real_reports a b false false r w = rw (trouble_seen a b false false) (plain_events a b)
