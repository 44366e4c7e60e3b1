-- ===== src/Domain/Enums.antt =====
-- internal/domain/enums.go: the enumerations and the predicates on them. A column of such a type
-- holds one of its values; a provider may still be any text when a request names it.
use khel_arena.Prelude.{Bool, true, false, not, ◌&&◌, ◌||◌, String}

pub data BookingStatus : Type 0 where
  pending confirmed completed cancelled no_show : BookingStatus

pub data PaymentProvider : Type 0 where
  esewa khalti cash : PaymentProvider
  other : String → PaymentProvider

pub data PaymentStatus : Type 0 where
  initiated verified failed refunded : PaymentStatus

pub data MatchmakingStatus : Type 0 where
  open_call filled expired cancelled : MatchmakingStatus

pub data TournamentStatus : Type 0 where
  open_entry full ongoing completed cancelled : TournamentStatus

-- `==` between two statuses, `is_cancelled` and the like for one of them.
abbrev pub is_pending : BookingStatus → Bool
is_pending BookingStatus.pending = true
is_pending _ = false

abbrev pub is_confirmed : BookingStatus → Bool
is_confirmed BookingStatus.confirmed = true
is_confirmed _ = false

abbrev pub is_completed : BookingStatus → Bool
is_completed BookingStatus.completed = true
is_completed _ = false

abbrev pub is_cancelled : BookingStatus → Bool
is_cancelled BookingStatus.cancelled = true
is_cancelled _ = false

abbrev pub is_no_show : BookingStatus → Bool
is_no_show BookingStatus.no_show = true
is_no_show _ = false

unfoldable pub is_live : BookingStatus → Bool
is_live b = not (is_cancelled b) && not (is_no_show b)

unfoldable pub can_cancel : BookingStatus → Bool
can_cancel b = is_pending b || is_confirmed b

abbrev pub is_esewa : PaymentProvider → Bool
is_esewa PaymentProvider.esewa = true
is_esewa _ = false

abbrev pub is_khalti : PaymentProvider → Bool
is_khalti PaymentProvider.khalti = true
is_khalti _ = false

abbrev pub is_cash : PaymentProvider → Bool
is_cash PaymentProvider.cash = true
is_cash _ = false

unfoldable pub is_online : PaymentProvider → Bool
is_online p = is_esewa p || is_khalti p

-- `p.Valid()`: whether the text is one of `paymentProviders`.
unfoldable pub valid_provider : PaymentProvider → Bool
valid_provider p = is_esewa p || is_khalti p || is_cash p

abbrev pub is_initiated : PaymentStatus → Bool
is_initiated PaymentStatus.initiated = true
is_initiated _ = false

abbrev pub is_verified : PaymentStatus → Bool
is_verified PaymentStatus.verified = true
is_verified _ = false

abbrev pub is_failed : PaymentStatus → Bool
is_failed PaymentStatus.failed = true
is_failed _ = false

abbrev pub is_refunded : PaymentStatus → Bool
is_refunded PaymentStatus.refunded = true
is_refunded _ = false

unfoldable pub is_settled : PaymentStatus → Bool
is_settled p = is_verified p || is_failed p || is_refunded p

unfoldable pub is_final : PaymentStatus → Bool
is_final p = is_verified p || is_refunded p

unfoldable pub accepts_responses : MatchmakingStatus → Bool
accepts_responses MatchmakingStatus.open_call = true
accepts_responses _ = false

unfoldable pub accepts_registrations : TournamentStatus → Bool
accepts_registrations TournamentStatus.open_entry = true
accepts_registrations _ = false
