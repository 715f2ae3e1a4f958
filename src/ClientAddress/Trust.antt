-- ===== src/ClientAddress/Trust.antt =====
-- Who decides the address of a client.
use nowhere_agent.Base.{◌≡◌, refl, String, false, List, [], ◌∷◌, All, some, Option-cases, inl, inr}
use nowhere_agent.Base.Dict.{Dict}
use nowhere_agent.ClientAddress.{Network, read_entry, new_set, trusts, peer_of, client_ip}

module _ (net : Network) where
  open net use {Addr, parse_addr, masked, covers, trim_space, before_comma}

  -- The address is in none of the ranges that the configuration gives.
  abbrev pub Outside : List String → Addr → Type 0
  Outside cidrs a =
      All (λ c. (p : net.Prefix) → read_entry net c ≡ some p → covers (masked p) a ≡ false) cidrs

  trusts-new_set :
      (cidrs : List String) (a : Addr) → Outside cidrs a → trusts net (new_set net cidrs) a ≡ false
  unfolding trusts new_set
  trusts-new_set [] a o = refl
  trusts-new_set (c ∷ cs) a o = elim (Option-cases (read_entry net c)) [
    | inl e ↦ rw (new_set, e) (trusts-new_set cs a o.1)
    | inr (p, e) ↦ rw (new_set, e) (rw (o.0 p e) (trusts-new_set cs a o.1))
  ]

  -- A peer outside of all ranges that the configuration names, be it that entries cannot be read, or a
  -- peer that is no address, is itself the client: no header changes that.
  pub client_ip-direct :
      (cidrs : List String) (remote : String) (h : Dict String)
      → ((a : Addr) → parse_addr (peer_of net remote) ≡ some a → Outside cidrs a)
      → client_ip net (new_set net cidrs) remote h ≡ peer_of net remote
  unfolding client_ip
  client_ip-direct cidrs remote h o = elim (Option-cases (parse_addr (peer_of net remote))) [
    | inl e ↦ rw (client_ip, e) refl
    | inr (a, e) ↦ rw (client_ip, e, trusts-new_set cidrs a (o a e)) refl
  ]
