-- ===== src/Web/Lan/Looks.antt =====
-- What lanIP finds at one interface (Web/Lan).
use timberlake.Base.{
  ℕ, ◌≡◌, refl, sym, ap, ◌∙◌, ◌⊎◌, inl, inr, true, false, List, [], ◌∷◌, Option, none, some, arith,
}
use timberlake.Io.{Text}
use timberlake.Web.Lan.{Address, private_ipv4, found, going, fall_back, look}

-- A private IPv4 address of a net.IPNet, with this text.
abbrev pub Takes : Address → Text → Type 0
Takes a ip = (a.is_net ≡ true) × (a.is_private ≡ true) × (a.ipv4 ≡ some ip)

-- One of the addresses is such an address.
unfoldable pub Shows : List Address → Text → Type 0
Shows [] ip = ⊥
Shows (a ∷ more) ip = Takes a ip ⊎ Shows more ip

private_ipv4-Takes : (a : Address) (ip : Text) → private_ipv4 a ≡ some ip → Takes a ip
unfolding private_ipv4
private_ipv4-Takes a ip h = ground arith

Takes-private_ipv4 : (a : Address) (ip : Text) → Takes a ip → private_ipv4 a ≡ some ip
unfolding private_ipv4
Takes-private_ipv4 a ip (net, private, text) = rw (net, private, text) refl

-- What a real interface gives: its first such address, or nothing if it has none.
abbrev pub Real : Text → List Address → Type 0
Real fallback addresses =
    ((ip : Text) × (look false fallback addresses ≡ found ip) × Shows addresses ip)
    ⊎ ((look false fallback addresses ≡ going fallback) × ((ip : Text) → ¬ Shows addresses ip))

pub look-Real : (fallback : Text) (addresses : List Address) → Real fallback addresses
unfolding look Shows
look-Real fallback [] = inr (refl, λ ip shows. shows)
look-Real fallback (a ∷ more) = by_first (private_ipv4 a) refl (look-Real fallback more)
  where
    by_first :
        (o : Option Text) → private_ipv4 a ≡ o → Real fallback more → Real fallback (a ∷ more)
    by_first (some ip) h rest = inl (ip, rw (h, look) refl, inl (private_ipv4-Takes a ip h))
    by_first none h (inl (ip, gave, shows)) = inl (ip, rw (h, look) gave, inr shows)
    by_first none h (inr (gave, empty)) = inr (
      rw (h, look) gave,
      λ ip shows. elim shows [
        | inl first ↦ cc (sym h ∙ Takes-private_ipv4 a ip first)
        | inr rest ↦ empty ip rest
      ],
    )

-- No address with a text.
abbrev pub Quiet : List Address → Type 0
Quiet addresses = (c : ℕ) (cs : Text) → ¬ Shows addresses (c ∷ cs)

-- A virtual one only ever changes an empty fallback, and to an address of it, if it has one.
abbrev pub Virtual : Text → List Address → Type 0
Virtual fallback addresses =
    (fallback' : Text) × (look true fallback addresses ≡ going fallback')
    × (((fallback' ≡ fallback) × (fallback ≡ [] → Quiet addresses))
        ⊎ ((c : ℕ) × (cs : Text) × (fallback' ≡ c ∷ cs) × Shows addresses fallback'))

pub look-Virtual : (fallback : Text) (addresses : List Address) → Virtual fallback addresses
unfolding look Shows fall_back
look-Virtual fallback [] = (fallback, refl, inl (refl, λ e c cs shows. shows))
look-Virtual fallback (a ∷ more) =
    by_first fallback (private_ipv4 a) refl (λ f. look-Virtual f more)
  where
    quiet :
        (o : Option Text)
        → private_ipv4 a ≡ o
        → ((c : ℕ) (cs : Text) → ¬ (o ≡ some (c ∷ cs)))
        → Quiet more
        → Quiet (a ∷ more)
    quiet o h other rest c cs shows = elim shows [
      | inl first ↦ other c cs (sym h ∙ Takes-private_ipv4 a (c ∷ cs) first)
      | inr later ↦ rest c cs later
    ]

    by_first :
        (fallback : Text) (o : Option Text)
        → private_ipv4 a ≡ o
        → ((f : Text) → Virtual f more)
        → Virtual fallback (a ∷ more)
    by_first fallback none h rest =
        let (f, gave, from) = rest fallback in
        (
          f,
          rw (h, look) gave,
          elim from [
            | inl (same, none_there) ↦ inl (same, λ e. quiet none h (λ c cs bad. cc) (none_there e))
            | inr (c, cs, text, shows) ↦ inr (c, cs, text, inr shows)
          ],
        )
    by_first [] (some []) h rest =
        let (f, gave, from) = rest [] in
        (
          f,
          rw (h, look) gave,
          elim from [
            | inl (same, none_there) ↦
                inl (same, λ e. quiet (some []) h (λ c cs bad. cc) (none_there e))
            | inr (c, cs, text, shows) ↦ inr (c, cs, text, inr shows)
          ],
        )
    by_first [] (some (c ∷ cs)) h rest =
        let (f, gave, from) = rest (c ∷ cs) in
        (
          f,
          rw (h, look) gave,
          elim from [
            | inl (same, none_there) ↦
                inr (c, cs, same, inl (private_ipv4-Takes a f (h ∙ ap some (sym same))))
            | inr (d, ds, text, shows) ↦ inr (d, ds, text, inr shows)
          ],
        )
    by_first (c ∷ cs) (some ip) h rest =
        let (f, gave, from) = rest (c ∷ cs) in
        (
          f,
          rw (h, look) gave,
          elim from [
            | inl (same, none_there) ↦ inl (same, λ e. cc)
            | inr (d, ds, text, shows) ↦ inr (d, ds, text, inr shows)
          ],
        )
