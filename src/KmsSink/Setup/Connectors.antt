-- ===== src/KmsSink/Setup/Connectors.antt =====
-- Which connector `findRequestedConnector` picks (src/kms_sink.cpp).
use twincam.Base.{
  ℕ, suc, ◌≡◌, refl, Bool, true, false, Option, none, some, List, [], ◌∷◌, arith, if◌then◌else◌,
  Bool-cases, String, str_eq, eq_iff, inl, inr,
}
use twincam.Drm.Types.{Connector, Status}
use twincam.KmsSink.Setup.{find_requested_connector}

-- The position, counted from `i`, of the first connector that passes a test.
abbrev pub position : (Connector → Bool) → ℕ → List Connector → Option ℕ
position test i [] = none
position test i (c ∷ cs) = if test c then some i else position test (suc i) cs

abbrev pub has_status : Status → Status → Bool
has_status Status.connected Status.connected = true
has_status Status.unknown Status.unknown = true
has_status Status.disconnected Status.disconnected = true
has_status _ _ = false

abbrev pub or_else : Option ℕ → Option ℕ → Option ℕ
or_else none b = b
or_else (some a) b = some a

-- Step by step: the connector chosen so far yields to one that is connected only.
find_any :
    (i : ℕ) (cs : List Connector) (chosen : Option ℕ)
    → find_requested_connector "" i cs chosen
      ≡ or_else
          (position (λ c. has_status Status.connected c.status) i cs)
          (or_else chosen (position (λ c. has_status Status.unknown c.status) i cs))
unfolding find_requested_connector
find_any i [] none = refl
find_any i [] (some k) = refl
find_any i (c ∷ cs) none = ground (arith, find_any (suc i) cs none, find_any (suc i) cs (some i))
find_any i (c ∷ cs) (some k) = ground (arith, find_any (suc i) cs (some k))

find_named :
    (name : String) (i : ℕ) (cs : List Connector) (chosen : Option ℕ)
    → str_eq name "" ≡ false
    → find_requested_connector name i cs chosen
      ≡ or_else (position (λ c. str_eq c.name name) i cs) chosen
unfolding find_requested_connector
find_named name i [] chosen named = refl
find_named name i (c ∷ cs) chosen named = ground (arith, find_named name (suc i) cs chosen named)

-- The sink's connector: with a name, the first connector of that name and none if there is none;
-- without one (the empty name), the first connected connector, or if none is connected, the first with
-- unknown status, or none. Positions count from 0.
pub find_requested_connector_lem :
    (name : String) (cs : List Connector)
    → find_requested_connector name 0 cs none ≡ (
        if str_eq name ""
        then or_else
            (position (λ c. has_status Status.connected c.status) 0 cs)
            (position (λ c. has_status Status.unknown c.status) 0 cs)
        else position (λ c. str_eq c.name name) 0 cs)
find_requested_connector_lem name cs = elim (Bool-cases (str_eq name "")) [
  | inl empty ↦ ground (arith, eq_iff name "", find_any 0 cs none)
  | inr named ↦ ground (arith, find_named name 0 cs none named)
]
