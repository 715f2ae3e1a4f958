-- ===== src/ClientAddress.antt =====
-- The address of a client behind proxies, internal/trustedproxy/trustedproxy.go. The packages net,
-- net/netip and strings are the parameter `Network`; a header is looked up by its canonical name.
pub mod Trust
mod Tests
use nowhere_agent.Base.{
  String, Bool, true, false, not, ◌||◌, List, [], ◌∷◌, Option, none, some, str_eq, if◌then◌else◌,
}
use nowhere_agent.Base.Dict.{Dict, lookup}

pub record Network : Type 1 where
  pub Addr : Type 0
  pub Prefix : Type 0
  pub parse_addr : String → Option Addr
  pub parse_prefix : String → Option Prefix
  pub host_prefix : Addr → Prefix
  pub masked : Prefix → Prefix
  pub covers : Prefix → Addr → Bool
  pub split_host_port : String → Option String
  pub trim_brackets : String → String
  pub trim_space : String → String
  pub has_slash : String → Bool
  pub before_comma : String → String

module _ (net : Network) where
  open net use {
    Addr, Prefix, parse_addr, parse_prefix, host_prefix, masked, covers, split_host_port,
    trim_brackets, trim_space, has_slash, before_comma,
  }

  -- The prefix of an entry of the configuration, if that can be read.
  unfoldable pub read_entry : String → Option Prefix
  read_entry c =
      let t = trim_space c in
      if str_eq t ""
      then none
      else if has_slash t
      then parse_prefix t
      else elim (parse_addr t) [ none ↦ none | some a ↦ some (host_prefix a) ]

  -- `New`
  unfoldable pub new_set : List String → List Prefix
  new_set [] = []
  new_set (c ∷ cs) =
      let rest = new_set cs in elim (read_entry c) [ none ↦ rest | some p ↦ masked p ∷ rest ]

  -- `Set.contains`
  unfoldable pub trusts : List Prefix → Addr → Bool
  trusts [] a = false
  trusts (p ∷ ps) a = covers p a || trusts ps a

  abbrev pub header : String → Dict String → String
  header name h = elim (lookup name h) [ none ↦ "" | some v ↦ v ]

  unfoldable pub peer_of : String → String
  peer_of remote = elim (split_host_port remote) [ none ↦ trim_brackets remote | some host ↦ host ]

  -- `Set.ClientIP` for a peer that is trusted.
  unfoldable pub forwarded : String → Dict String → String
  forwarded peer h =
      let xff = header "X-Forwarded-For" h in
      let first = trim_space (before_comma xff) in
      let real = trim_space (header "X-Real-Ip" h) in
      let other = if not (str_eq real "") then real else peer in
      if not (str_eq xff "") then (if not (str_eq first "") then first else other) else other

  -- `Set.ClientIP`
  unfoldable pub client_ip : List Prefix → String → Dict String → String
  client_ip ps remote h =
      let peer = peer_of remote in
      elim (parse_addr peer) [
        | none ↦ peer
        | some a ↦ if not (trusts ps a) then peer else forwarded peer h
      ]
