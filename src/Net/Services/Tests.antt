-- ===== src/Net/Services/Tests.antt =====
-- Connections to services at concrete inputs.
use asio_utils.Base.{ℕ, ◌≡◌, refl, [], ◌∷◌, lookup, Once, arith}
use asio_utils.Net.Services.{
  ServiceConfig, ServiceKernel, same_endpoint, check_connect_service, connect_session, session_of,
}
use asio_utils.Net.Services.Endpoints.{IsValid, connections_to}

abbrev central_at : ℕ → ServiceConfig
central_at sid = record { type = 2; port = 7000; sid = sid; ip = 9; session = 50 }

abbrev one_service : ServiceKernel
one_service = record { connect_services = (4, central_at 1) ∷ []; changes = [] }

one_service-IsValid : IsValid one_service.connect_services
unfolding connections_to same_endpoint Once lookup
one_service-IsValid = record { once = (refl, tt); no_invalid = refl; one_each = λ c. ground arith }

restarted :
    connect_session
      (check_connect_service (central_at 3) one_service.connect_services)
      one_service.connect_services
    ≡ 50
unfolding connect_session check_connect_service same_endpoint session_of lookup
restarted = refl
