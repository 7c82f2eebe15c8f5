-- ===== src/Server/Health.antt =====
-- src/runtime/health.rs: the health of a runtime's server, from its answers at the addresses of an
-- endpoint. The sockets and the JSON are parameters; a response is read by Http.
use agentbox_nix.Shared.{
  ℕ, String, ◌≡◌, ◌≢◌, ◌↔◌, ◌⊎◌, inl, inr, refl, Bool, true, false, not, Option, none, some, List,
  [], ◌∷◌, eqb, unwrap_or, arith, if◌then◌else◌, ap, subst, one_value,
}
use agentbox_nix.Errors.{RuntimeKind, opencode, codex}
use agentbox_nix.Runtime.{AttachEndpoint}
use agentbox_nix.Http.Reader.{HttpResponse}

-- The reasons of the source, as values.
pub data Reason : Type 0 where
  unreachable healthy_is_false malformed_json : Reason
  http_status : (code : ℕ) → Reason

pub data RuntimeHealth : Type 0 where
  healthy : RuntimeHealth
  unhealthy : (reason : Reason) → RuntimeHealth

abbrev pub is_healthy : RuntimeHealth → Bool
is_healthy healthy = true
is_healthy (unhealthy _) = false

pub data RuntimeHealthResponsePolicy : Type 0 where
  http_ok json_healthy_flag : RuntimeHealthResponsePolicy

pub record RuntimeHealthCheck : Type 0 where
  pub path : String
  pub response_policy : RuntimeHealthResponsePolicy

-- `RuntimeKind::health_check`, of the profiles
abbrev pub health_check : RuntimeKind → RuntimeHealthCheck
health_check opencode = record { path = "/global/health"; response_policy = json_healthy_flag }
health_check codex = record { path = "/readyz"; response_policy = http_ok }

pub record Network : Type 1 where
  pub Address : Type 0
  pub Stream : Type 0
  -- `to_socket_addrs`, `none` for an error
  pub to_socket_addrs : AttachEndpoint → Option (List Address)
  -- `TcpStream::connect_timeout`
  pub connect : Address → Option Stream
  -- `http_probe::get_response`
  pub get_response : AttachEndpoint → Stream → String → Option HttpResponse
  -- the flag `healthy` of a body, `none` for malformed JSON
  pub healthy_flag : List ℕ → Option Bool

abbrev flag_health : Option Bool → RuntimeHealth
flag_health none = unhealthy malformed_json
flag_health (some false) = unhealthy healthy_is_false
flag_health (some true) = healthy

module _ (network : Network) where
  open network use {Address, Stream, to_socket_addrs, connect, get_response, healthy_flag}

  abbrev policy_health : RuntimeHealthResponsePolicy → HttpResponse → RuntimeHealth
  policy_health http_ok response = healthy
  policy_health json_healthy_flag response = flag_health (healthy_flag response.body)

  unfoldable pub health_response_status : HttpResponse → RuntimeHealthResponsePolicy → RuntimeHealth
  health_response_status response policy =
      if not (eqb response.status_code 200)
      then unhealthy (http_status response.status_code)
      else policy_health policy response

  abbrev response_health : RuntimeHealthCheck → Option HttpResponse → RuntimeHealth
  response_health check none = unhealthy unreachable
  response_health check (some response) = health_response_status response check.response_policy

  unfoldable pub endpoint_connection_health :
      RuntimeHealthCheck → AttachEndpoint → Stream → RuntimeHealth
  unfolding health_response_status
  endpoint_connection_health check endpoint stream =
      response_health check (get_response endpoint stream check.path)

  -- The health at an address, `none` without a connection.
  abbrev stream_health : RuntimeHealthCheck → AttachEndpoint → Option Stream → Option RuntimeHealth
  stream_health check endpoint none = none
  stream_health check endpoint (some stream) =
      some (endpoint_connection_health check endpoint stream)

  abbrev pub address_health : RuntimeHealthCheck → AttachEndpoint → Address → Option RuntimeHealth
  address_health check endpoint address = stream_health check endpoint (connect address)

  abbrev go_on :
      Option RuntimeHealth
      → Option RuntimeHealth
      → (Option RuntimeHealth → RuntimeHealth)
      → RuntimeHealth
  go_on none last rest = rest last
  go_on (some healthy) last rest = healthy
  go_on (some (unhealthy reason)) last rest = rest (some (unhealthy reason))

  -- The loop over the addresses, with `last_unhealthy`.
  unfoldable pub check_addresses :
      RuntimeHealthCheck → AttachEndpoint → List Address → Option RuntimeHealth → RuntimeHealth
  check_addresses check endpoint [] last = unwrap_or last (unhealthy unreachable)
  check_addresses check endpoint (address ∷ addresses) last =
      go_on (address_health check endpoint address) last (check_addresses check endpoint addresses)

  abbrev check_resolved :
      RuntimeHealthCheck → AttachEndpoint → Option (List Address) → RuntimeHealth
  check_resolved check endpoint none = unhealthy unreachable
  check_resolved check endpoint (some addresses) = check_addresses check endpoint addresses none

  -- `HostRuntimeHealthProbe::check`
  unfoldable pub check_health : RuntimeKind → AttachEndpoint → RuntimeHealth
  unfolding check_addresses
  check_health runtime endpoint =
      check_resolved (health_check runtime) endpoint (to_socket_addrs endpoint)

  -- An answer that counts: status 200, with the flag where the runtime reports one.
  abbrev pub IsGood : RuntimeHealthResponsePolicy → HttpResponse → Type 0
  IsGood http_ok response = response.status_code ≡ 200
  IsGood json_healthy_flag response =
      (response.status_code ≡ 200) × (healthy_flag response.body ≡ some true)

  abbrev pub AnswersWell : RuntimeHealthCheck → AttachEndpoint → Address → Type 0
  AnswersWell check endpoint address =
      (stream : Stream) × (connect address ≡ some stream)
      × (response : HttpResponse) × (get_response endpoint stream check.path ≡ some response)
      × IsGood check.response_policy response

  abbrev pub SomeAnswersWell : RuntimeHealthCheck → AttachEndpoint → List Address → Type 0
  SomeAnswersWell check endpoint [] = ⊥
  SomeAnswersWell check endpoint (address ∷ addresses) =
      AnswersWell check endpoint address ⊎ SomeAnswersWell check endpoint addresses

  flag_iff : (flag : Option Bool) → (flag_health flag ≡ healthy) ↔ (flag ≡ some true)
  flag_iff none = (λ h. cc, λ h. cc)
  flag_iff (some false) = (λ h. cc, λ h. cc)
  flag_iff (some true) = (λ h. refl, λ h. refl)

  response_status_iff :
      (policy : RuntimeHealthResponsePolicy) (response : HttpResponse)
      → (health_response_status response policy ≡ healthy) ↔ IsGood policy response
  unfolding health_response_status
  response_status_iff http_ok response = (λ h. ground arith, λ h. ground arith)
  response_status_iff json_healthy_flag response =
      let (to, from) = flag_iff (healthy_flag response.body) in
      (
        λ h. (ground arith, to (ground arith)),
        λ (status, flag). let good = from flag in ground arith,
      )

  response_iff :
      (check : RuntimeHealthCheck) (read : Option HttpResponse)
      → (response_health check read ≡ healthy) ↔ (
          (response : HttpResponse) × (read ≡ some response)
          × IsGood check.response_policy response)
  response_iff check none = (λ h. cc, λ (response, read, good). cc)
  response_iff check (some response) =
      let (to, from) = response_status_iff check.response_policy response in
      (
        λ h. (response, refl, to h),
        λ (other, same, good).
            from (subst (IsGood check.response_policy) (one_value same refl) good),
      )

  stream_iff :
      (check : RuntimeHealthCheck) (endpoint : AttachEndpoint) (address : Address)
      (o : Option Stream)
      → connect address ≡ o
      → (stream_health check endpoint o ≡ some healthy) ↔ AnswersWell check endpoint address
  unfolding endpoint_connection_health
  stream_iff check endpoint address none c = (λ h. cc, λ (stream, connected, _, _, _). cc)
  stream_iff check endpoint address (some stream) c =
      let (to, from) = response_iff check (get_response endpoint stream check.path) in
      (
        λ h.
            let (response, read, good) = to (one_value refl h) in (stream, c, response, read, good),
        λ (other, connected, response, read, good).
            let same : other ≡ stream = one_value connected c in
            ap some (
              from (
                response,
                subst (λ s. get_response endpoint s check.path ≡ some response) same read,
                good,
              )),
      )

  round_iff :
      (health last : Option RuntimeHealth) (rest : Option RuntimeHealth → RuntimeHealth)
      (Later : Type 0)
      → last ≢ some healthy
      → ((l : Option RuntimeHealth) → l ≢ some healthy → (rest l ≡ healthy) ↔ Later)
      → (go_on health last rest ≡ healthy) ↔ ((health ≡ some healthy) ⊎ Later)
  round_iff none last rest Later not_yet ih =
      let (to, from) = ih last not_yet in
      (λ h. inr (to h), λ t. elim t [ inl h ↦ cc | inr l ↦ from l ])
  round_iff (some healthy) last rest Later not_yet ih = (λ h. inl refl, λ t. refl)
  round_iff (some (unhealthy r)) last rest Later not_yet ih =
      let (to, from) = ih (some (unhealthy r)) (λ h. cc) in
      (λ h. inr (to h), λ t. elim t [ inl h ↦ cc | inr l ↦ from l ])

  check_addresses_iff :
      (check : RuntimeHealthCheck) (endpoint : AttachEndpoint) (addresses : List Address)
      (last : Option RuntimeHealth)
      → last ≢ some healthy
      → (check_addresses check endpoint addresses last ≡ healthy)
        ↔ SomeAnswersWell check endpoint addresses
  unfolding check_addresses
  check_addresses_iff check endpoint [] none not_yet = (λ h. cc, λ h. absurd h)
  check_addresses_iff check endpoint [] (some seen) not_yet =
      (λ h. absurd (not_yet (ap some h)), λ h. absurd h)
  check_addresses_iff check endpoint (address ∷ addresses) last not_yet =
      let (to, from) =
        round_iff (address_health check endpoint address) last
          (check_addresses check endpoint addresses) (SomeAnswersWell check endpoint addresses)
          not_yet (check_addresses_iff check endpoint addresses) in
      let (well, back) = stream_iff check endpoint address (connect address) refl in
      (
        λ h. elim (to h) [ inl now ↦ inl (well now) | inr later ↦ inr later ],
        λ t. from (elim t [ inl now ↦ inl (back now) | inr later ↦ inr later ]),
      )

  -- A server counts as healthy exactly when the endpoint resolves and one of its addresses accepts a
  -- connection and answers with status 200, and for opencode with the flag `healthy` in the body,
  -- whatever the other addresses answer.
  pub check_health_iff :
      (runtime : RuntimeKind) (endpoint : AttachEndpoint)
      → (check_health runtime endpoint ≡ healthy) ↔ (
          (addresses : List Address) × (to_socket_addrs endpoint ≡ some addresses)
          × SomeAnswersWell (health_check runtime) endpoint addresses)
  unfolding check_health
  check_health_iff runtime endpoint = go (to_socket_addrs endpoint) refl
    where
      go :
          (o : Option (List Address))
          → to_socket_addrs endpoint ≡ o
          → (check_resolved (health_check runtime) endpoint o ≡ healthy) ↔ (
              (addresses : List Address) × (to_socket_addrs endpoint ≡ some addresses)
              × SomeAnswersWell (health_check runtime) endpoint addresses)
      go none e = (λ h. cc, λ (addresses, resolved, answer). cc)
      go (some found) e =
          let (to, from) =
            check_addresses_iff (health_check runtime) endpoint found none (λ h. cc) in
          (
            λ h. (found, e, to h),
            λ (addresses, resolved, answer). from (
                subst (SomeAnswersWell (health_check runtime) endpoint) (one_value resolved e)
                  answer),
          )
