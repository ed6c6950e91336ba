-- ===== src/Web/Lan.antt =====
-- web/server.go: the address that is shared. lanIP goes over the interfaces with their flags and
-- addresses as the net package gives them; ShareURL prefers the tunnel.
pub mod Named
pub mod Looks
pub mod Shared
use timberlake.Base.{
  Bool, true, false, ◌&&◌, ◌||◌, not, List, [], ◌∷◌, Option, none, some, if◌then◌else◌,
}
use timberlake.Io.{Text, codes, Result, ok, err}
use timberlake.Strings.{to_lower, has_prefix}

-- net.Addr: whether it is a *net.IPNet, the text of its To4() if there is one, and IsPrivate.
pub record Address : Type 0 where
  pub is_net : Bool
  pub ipv4 : Option Text
  pub is_private : Bool

pub record Interface : Type 0 where
  pub up : Bool
  pub loopback : Bool
  pub name : Text
  pub addresses : Result (List Address)

unfoldable pub is_skipped : Interface → Bool
is_skipped i = not i.up || i.loopback

unfoldable pub is_virtual : Text → Bool
unfolding to_lower has_prefix
is_virtual raw =
    let name : Text = to_lower raw in
    has_prefix (codes "utun") name
    || has_prefix (codes "tun") name
    || has_prefix (codes "tap") name
    || has_prefix (codes "docker") name
    || has_prefix (codes "br-") name
    || has_prefix (codes "veth") name

-- The text of an address that may be taken.
unfoldable pub private_ipv4 : Address → Option Text
private_ipv4 a = if a.is_net && a.is_private then a.ipv4 else none

-- The addresses of one interface: an answer, or the fallback to go on with.
pub data Found : Type 0 where
  found : Text → Found
  going : Text → Found

unfoldable pub fall_back : Text → Text → Text
fall_back [] ip = ip
fall_back (c ∷ cs) ip = c ∷ cs

unfoldable pub look : Bool → Text → List Address → Found
unfolding private_ipv4 fall_back
look virtual fallback [] = going fallback
look virtual fallback (a ∷ more) = elim (private_ipv4 a) [
  | none ↦ look virtual fallback more
  | some ip ↦ if virtual then look virtual (fall_back fallback ip) more else found ip
]

unfoldable pub ending : Text → Text
ending [] = codes "localhost"
ending (c ∷ cs) = c ∷ cs

unfoldable pub look_all : Text → List Interface → Text
unfolding is_skipped is_virtual look ending
look_all fallback [] = ending fallback
look_all fallback (i ∷ more) =
    let rest = look_all fallback more in
    if is_skipped i then rest else elim i.addresses [
      | err e ↦ rest
      | ok addresses ↦ elim (look (is_virtual i.name) fallback addresses) [
        | found ip ↦ ip
        | going fallback' ↦ look_all fallback' more
      ]
    ]

-- lanIP
unfoldable pub lan_ip : Result (List Interface) → Text
unfolding look_all
lan_ip (err e) = codes "localhost"
lan_ip (ok interfaces) = look_all [] interfaces

-- The URLs of a server; "" for none.
pub record Urls : Type 0 where
  pub lan_url : Text
  pub remote : Text

unfoldable pub set_remote_url : Text → Urls → Urls
set_remote_url u s = record s { remote = u }

unfoldable pub share_url : Urls → Text
share_url s = elim s.remote [ [] ↦ s.lan_url | c ∷ cs ↦ s.remote ]
