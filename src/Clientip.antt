-- ===== src/Clientip.antt =====
-- The address of a client: src/svc/internal/httpx/clientip.go. Package net is a parameter: `host_of` is
-- the host that net.SplitHostPort finds, `parse_ip` is net.ParseIP, and a network is its Contains.
pub mod Forwarded
use dcalcon.Base.{
  ℕ, Bool, true, false, not, ◌&&◌, ◌||◌, Option, none, some, is_some, List, [], ◌∷◌, Text, codes,
  same, any, byte_len, take, drop, trim_space, equal_fold, split, ltb, if◌then◌else◌,
}

-- The parts of a request that the code reads.
pub record Request : Type 0 where
  pub remote_addr : Text
  pub forwarded_for : Text
  pub real_ip : Text
  pub authorization : Text

module _ {Ip : Type 0} (host_of : Text → Option Text) (parse_ip : Text → Option Ip)
    (is_loopback : Ip → Bool) where
  -- RemoteIP
  unfoldable pub remote_ip : Request → Text
  remote_ip r = elim (host_of r.remote_addr) [ none ↦ r.remote_addr | some host ↦ host ]

  abbrev pub any_contains : List (Ip → Bool) → Ip → Bool
  any_contains nets ip = any (λ (contains : Ip → Bool). contains ip) nets

  -- trustedIP
  unfoldable pub trusted_ip : Text → List (Ip → Bool) → Bool
  trusted_ip text nets = elim (parse_ip text) [
    | none ↦ false
    | some ip ↦ is_loopback ip || any_contains nets ip
  ]

  abbrev pub is_ip : Text → Bool
  is_ip text = is_some (parse_ip text)

  -- The loop over the parts of X-Forwarded-For, from the last one to the first.
  unfoldable pub last_ip : List Text → Option Text
  last_ip [] = none
  last_ip (part ∷ parts) = elim (last_ip parts) [
    | some ip ↦ some ip
    | none ↦ let ip = trim_space part in if is_ip ip then some ip else none
  ]

  -- The test of X-Real-IP, which is asked when X-Forwarded-For has no address.
  unfoldable pub real_or_peer : Text → Text → Text
  real_or_peer real peer = let x = trim_space real in if not (same x []) && is_ip x then x else peer

  -- ResolveClientIP
  unfoldable pub resolve_client_ip : Request → List (Ip → Bool) → Text
  unfolding remote_ip trusted_ip last_ip real_or_peer
  resolve_client_ip r trusted =
      let peer = remote_ip r in
      if not (trusted_ip peer trusted)
      then peer
      else elim (if same r.forwarded_for [] then none else last_ip (split b',' r.forwarded_for)) [
        | some ip ↦ ip
        | none ↦ real_or_peer r.real_ip peer
      ]

-- bearerToken, of a header in ASCII.
unfoldable pub bearer_token : (ℕ → ℕ) → Request → Text
bearer_token folding r =
    let h = trim_space r.authorization in
    if ltb (byte_len h) 8 || not (equal_fold folding (take 7 h) (codes "bearer "))
    then []
    else trim_space (drop 7 h)

module _ {Ip : Type 0} (host_of : Text → Option Text) (parse_ip : Text → Option Ip)
    (is_loopback : Ip → Bool) where
  abbrev pub loopback : Option Ip → Bool
  loopback none = false
  loopback (some ip) = is_loopback ip

  -- AllowMetrics
  unfoldable pub allow_metrics : (ℕ → ℕ) → Request → Text → Bool
  unfolding bearer_token remote_ip
  allow_metrics folding r token =
      if not (same token []) && same (bearer_token folding r) token
      then true
      else loopback (parse_ip (remote_ip host_of parse_ip is_loopback r))
