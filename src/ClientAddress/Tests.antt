-- ===== src/ClientAddress/Tests.antt =====
-- The theorems on the address of a client in a small network.
use nowhere_agent.Base.{
  ◌≡◌, refl, arith, String, true, false, [], ◌∷◌, none, some, str_eq, if◌then◌else◌,
}
use nowhere_agent.Base.Dict.{Dict}
use nowhere_agent.ClientAddress.{Network, read_entry, new_set, trusts, peer_of, client_ip}
use nowhere_agent.ClientAddress.Trust.{client_ip-direct}

-- Addresses are texts, and a range has one address.
abbrev net : Network
net = record {
  Addr = String;
  Prefix = String;
  parse_addr = λ s. if str_eq s "unix" then none else some s;
  parse_prefix = λ s. none;
  host_prefix = λ a. a;
  masked = λ p. p;
  covers = str_eq;
  split_host_port = λ s. none;
  trim_brackets = λ s. s;
  trim_space = λ s. s;
  has_slash = λ s. false;
  before_comma = λ s. if str_eq s "8.8.8.8, 5.6.7.8" then "8.8.8.8" else s;
}

abbrev sent : Dict String
sent = ("X-Forwarded-For", "8.8.8.8, 5.6.7.8") ∷ []

reads_entry : trusts net (new_set net ("10.0.0.1" ∷ [])) "10.0.0.1" ≡ true
unfolding trusts new_set read_entry
reads_entry = refl

-- The peer is not the proxy that is configured.
client_ip-direct_example : client_ip net (new_set net ("10.0.0.1" ∷ [])) "5.6.7.8" sent ≡ "5.6.7.8"
unfolding peer_of read_entry
client_ip-direct_example = client_ip-direct net ("10.0.0.1" ∷ []) "5.6.7.8" sent (λ a e. (
  (λ p q.
      let peer : a ≡ "5.6.7.8" = ground (arith, e) in
      let proxy : p ≡ "10.0.0.1" = ground (arith, q) in rw (peer, proxy) refl),
  tt,
))
