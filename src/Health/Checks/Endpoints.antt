-- ===== src/Health/Checks/Endpoints.antt =====
-- The addresses that `port-connect` of internal/health/checks.go dials, and what its answer rests on.
use tidewaiter.Common.{
  ℕ, ◌-◌, ◌*◌, ◌≤◌, String, ◌≡◌, ◌≢◌, ◌⊎◌, Bool, ◌||◌, true, false, Option, List, [], ◌∷◌, All, Any,
  Elem, arith,
}
use text.Mathlib.Text.{starts_with}
use tidewaiter.Model.{NetworkAttachment}
use tidewaiter.Health.{inconclusive, pass, fail, skip, Outcome}
use tidewaiter.Health.Checks.{
  Input, Prober, Endpoint, accepted, refused, second, first_sight, unserved, dial, is_reachable,
  client_endpoints,
}

-- Where a refusal is the workload's own.
abbrev pub IsDirect : Bool → List String → Endpoint → Type 0
IsDirect host_mode ips e =
    e.truthful ≡ true → ((host_mode ≡ true) × (e.host ≡ "127.0.0.1")) ⊎ Elem e.host ips

module _ (connect : Prober) where
  dial-unrefused :
      (es : List Endpoint) (b : Bool)
      → dial connect es b ≡ unserved false
      → (b ≡ false) × All (λ e. (e.truthful ≡ true) → connect e.host e.port ≢ refused) es
  dial-unrefused [] b h = ground arith
  dial-unrefused (e ∷ es) b h =
      ground (arith, dial-unrefused es b, dial-unrefused es (b || e.truthful))

-- An address of the subject on a network with a driver that the host can route to.
abbrev pub IsRoutable : Option (String → String) → List NetworkAttachment → String → Type 0
IsRoutable driver networks ip =
    Any (λ n. (n.ip_address ≡ ip) × (is_reachable driver n ≡ true)) networks

-- An endpoint whose refusal is the workload's own: the loopback of a subject in host network mode, or
-- an address of the subject that the host can route to.
abbrev pub IsOwn : Input → Endpoint → Type 0
IsOwn input e =
    ((starts_with input.subject.network_mode "host" ≡ true) × (e.host ≡ "127.0.0.1"))
    ⊎ IsRoutable input.network_driver input.subject.networks e.host

abbrev pub endpoints : Input → List Endpoint
endpoints input = client_endpoints input.subject input.ports input.network_driver

-- What each outcome of `port-connect` rests on.
abbrev pub Connect-Rests : Outcome → ℕ → ℕ → Input → Option ℕ → Type 0
Connect-Rests fail seconds now input seen =
    (seconds * second ≤ now - first_sight seen now)
    × (¬ Any (λ e. input.connect e.host e.port ≡ accepted) (endpoints input))
    × Any (λ e. IsOwn input e × (input.connect e.host e.port ≡ refused)) (endpoints input)
Connect-Rests pass seconds now input seen =
    Any (λ e. input.connect e.host e.port ≡ accepted) (endpoints input)
Connect-Rests inconclusive seconds now input seen =
    ¬ Any (λ e. input.connect e.host e.port ≡ accepted) (endpoints input)
Connect-Rests skip seconds now input seen = endpoints input ≡ []
