-- ===== src/Web/Lan/Shared.antt =====
-- Which address lanIP shares (Web/Lan).
use timberlake.Base.{ℕ, ◌≡◌, refl, sym, ◌∙◌, ◌⊎◌, inl, inr, Bool, true, false, List, [], ◌∷◌}
use timberlake.Io.{Text, codes, Result, ok, err}
use timberlake.Io.Readers.{ok_inj}
use timberlake.Web.Lan.{
  Address, Interface, is_skipped, is_virtual, found, going, look, ending, look_all, lan_ip,
}
use timberlake.Web.Lan.Named.{Named, is_virtual-Named, unlike}
use timberlake.Web.Lan.Looks.{Shows, look-Real, look-Virtual}

-- An interface that is up and no loopback, with the name of a virtual one or not, shows this
-- address.
abbrev pub Offers : Bool → Interface → Text → Type 0
Offers v i ip =
    (i.up ≡ true)
    × (i.loopback ≡ false)
    × Named v i.name
    × (addresses : List Address) × (i.addresses ≡ ok addresses)
    × Shows addresses ip

unfoldable pub SomeOffers : Bool → List Interface → Text → Type 0
SomeOffers v [] ip = ⊥
SomeOffers v (i ∷ more) ip = Offers v i ip ⊎ SomeOffers v more ip

-- No virtual interface offers an address with a text.
abbrev pub NoneVirtual : List Interface → Type 0
NoneVirtual interfaces = (c : ℕ) (cs : Text) → ¬ SomeOffers true interfaces (c ∷ cs)

-- The fallback of the interfaces before; or there was none, and there is none here.
abbrev Kept : Text → List Interface → Text → Type 0
Kept fallback interfaces ip =
    ((c : ℕ) × (cs : Text) × (fallback ≡ c ∷ cs) × (ip ≡ fallback))
    ⊎ ((fallback ≡ []) × (ip ≡ codes "localhost") × NoneVirtual interfaces)

-- What is right for lanIP to end with, from a fallback on.
abbrev Right : Text → List Interface → Text → Type 0
Right fallback interfaces ip =
    SomeOffers false interfaces ip
    ⊎ (((real : Text) → ¬ SomeOffers false interfaces real)
        × (SomeOffers true interfaces ip ⊎ Kept fallback interfaces ip))

same_text :
    (fallback : Text) (interfaces : List Interface) {ip ip' : Text}
    → ip ≡ ip'
    → Right fallback interfaces ip'
    → Right fallback interfaces ip
same_text fallback interfaces e right = rw e right

none_real :
    (i : Interface) (more : List Interface)
    → ((real : Text) → ¬ Offers false i real)
    → ((real : Text) → ¬ SomeOffers false more real)
    → (real : Text) → ¬ SomeOffers false (i ∷ more) real
unfolding SomeOffers
none_real i more nothing empty real offers = elim offers [
  | inl here ↦ nothing real here
  | inr there ↦ empty real there
]

-- An interface that offers nothing, or to a fallback that is there no more than that.
skip :
    (fallback ip : Text) (i : Interface) (more : List Interface)
    → ((real : Text) → ¬ Offers false i real)
    → (fallback ≡ [] → (c : ℕ) (cs : Text) → ¬ Offers true i (c ∷ cs))
    → Right fallback more ip
    → Right fallback (i ∷ more) ip
unfolding SomeOffers
skip fallback ip i more nothing still (inl real) = inl (inr real)
skip fallback ip i more nothing still (inr (empty, inl virtual)) =
    inr (none_real i more nothing empty, inl (inr virtual))
skip fallback ip i more nothing still (inr (empty, inr (inl there))) =
    inr (none_real i more nothing empty, inr (inl there))
skip fallback ip i more nothing still (inr (empty, inr (inr (e, end, later)))) = inr (
  none_real i more nothing empty,
  inr (
      inr (
        e,
        end,
        λ c cs offers. elim offers [ inl here ↦ still e c cs here | inr there ↦ later c cs there ],
      )),
)

-- A virtual interface that changed the fallback to an address of it.
moved :
    (fallback fallback' ip : Text) (i : Interface) (more : List Interface) (c : ℕ) (cs : Text)
    → fallback' ≡ c ∷ cs
    → ((real : Text) → ¬ Offers false i real)
    → Offers true i fallback'
    → Right fallback' more ip
    → Right fallback (i ∷ more) ip
unfolding SomeOffers
moved fallback fallback' ip i more c cs text nothing offers (inl real) = inl (inr real)
moved fallback fallback' ip i more c cs text nothing offers (inr (empty, inl virtual)) =
    inr (none_real i more nothing empty, inl (inr virtual))
moved fallback fallback' ip i more c cs text nothing offers (inr (empty, inr (inl kept))) =
    inr (none_real i more nothing empty, inl (inl (rw kept.3 offers)))
moved fallback fallback' ip i more c cs text nothing offers (inr (empty, inr (inr none_there))) =
    cc (sym text ∙ none_there.0)

-- What look leads to, on an interface that is not skipped.
look-Right :
    (fallback : Text) (i : Interface) (addresses : List Address) (more : List Interface)
    → i.up ≡ true
    → i.loopback ≡ false
    → i.addresses ≡ ok addresses
    → ((f : Text) → Right f more (look_all f more))
    → Right fallback (i ∷ more) (elim (look (is_virtual i.name) fallback addresses) [
      | found ip ↦ ip
      | going fallback' ↦ look_all fallback' more
    ])
unfolding SomeOffers
look-Right fallback i addresses more up outward gave rest = by_name (is_virtual i.name) refl
  where
    silent : (v : Bool) (ip : Text) → ¬ Shows addresses ip → ¬ Offers v i ip
    silent v ip empty (up', out', named, addresses', gave', shows) =
        empty (rw (ok_inj addresses' addresses (sym gave' ∙ gave)) at shows)

    by_name :
        (v : Bool)
        → is_virtual i.name ≡ v
        → Right fallback (i ∷ more) (elim (look v fallback addresses) [
          | found ip ↦ ip
          | going fallback' ↦ look_all fallback' more
        ])
    by_name false real =
        let named = is_virtual-Named false i.name real in
        elim (look-Real fallback addresses) [
          | inl (ip, result, shows) ↦
              rw result (inl (inl (up, outward, named, addresses, gave, shows)))
          | inr (result, empty) ↦ rw result (
              skip fallback _ i more (λ ip. silent false ip (empty ip))
                (λ e c cs. silent true (c ∷ cs) (empty (c ∷ cs))) (rest fallback))
        ]
    by_name true virtual =
        let named = is_virtual-Named true i.name virtual in
        let other : (real : Text) → ¬ Offers false i real =
          λ real offers. unlike true i.name named offers.2 in
        let (fallback', result, from) = look-Virtual fallback addresses in
        rw result (elim from [
          | inl (same, none_there) ↦
              skip fallback _ i more other (λ e c cs. silent true (c ∷ cs) (none_there e c cs))
                (rw same (rest fallback))
          | inr (c, cs, text, shows) ↦
              moved fallback fallback' _ i more c cs text other
                (up, outward, named, addresses, gave, shows) (rest fallback')
        ])

-- An interface that is skipped is down or a loopback.
is_skipped-cases :
    (i : Interface)
    → ((is_skipped i ≡ true) × (¬ ((i.up ≡ true) × (i.loopback ≡ false))))
      ⊎ ((is_skipped i ≡ false) × (i.up ≡ true) × (i.loopback ≡ false))
unfolding is_skipped
is_skipped-cases i = by_flags i.up i.loopback refl refl
  where
    by_flags :
        (u l : Bool)
        → i.up ≡ u
        → i.loopback ≡ l
        → ((is_skipped i ≡ true) × (¬ ((i.up ≡ true) × (i.loopback ≡ false))))
          ⊎ ((is_skipped i ≡ false) × (i.up ≡ true) × (i.loopback ≡ false))
    by_flags true true u l = inl (rw (u, l, is_skipped) refl, λ used. cc (sym l ∙ used.1))
    by_flags true false u l = inr (rw (u, l, is_skipped) refl, u, l)
    by_flags false b u l = inl (rw (u, is_skipped) refl, λ used. cc (sym u ∙ used.0))

look_all-Right :
    (fallback : Text) (interfaces : List Interface)
    → Right fallback interfaces (look_all fallback interfaces)
unfolding look_all SomeOffers ending
look_all-Right [] [] = inr ((λ real offers. offers), inr (inr (refl, refl, λ c cs offers. offers)))
look_all-Right (c ∷ cs) [] = inr ((λ real offers. offers), inr (inl (c, cs, refl, refl)))
look_all-Right fallback (i ∷ more) =
    by_flags (is_skipped-cases i) i.addresses refl (λ f. look_all-Right f more)
  where
    none_of :
        {ip : Text}
        → ((v : Bool) (real : Text) → ¬ Offers v i real)
        → Right fallback more ip
        → Right fallback (i ∷ more) ip
    none_of {ip} nothing rest =
        skip fallback ip i more (nothing false) (λ e c cs. nothing true (c ∷ cs)) rest

    by_flags :
        ((is_skipped i ≡ true) × (¬ ((i.up ≡ true) × (i.loopback ≡ false))))
          ⊎ ((is_skipped i ≡ false) × (i.up ≡ true) × (i.loopback ≡ false))
        → (gave : Result (List Address)) → i.addresses ≡ gave
        → ((f : Text) → Right f more (look_all f more))
        → Right fallback (i ∷ more) (look_all fallback (i ∷ more))
    by_flags (inl (skipped, unused)) gave answer rest =
        same_text fallback (i ∷ more) (rw (skipped, look_all) refl)
          (none_of (λ v real offers. unused (offers.0, offers.1)) (rest fallback))
    by_flags (inr (used, up, outward)) (err e) answer rest =
        same_text fallback (i ∷ more) (rw (used, answer, look_all) refl) (
          none_of (λ v real (u, l, n, addresses, gave, shows). cc (sym answer ∙ gave))
            (rest fallback))
    by_flags (inr (used, up, outward)) (ok addresses) answer rest =
        same_text fallback (i ∷ more) (rw (used, answer, look_all) refl)
          (look-Right fallback i addresses more up outward answer rest)

-- lanIP gives the text of a private IPv4 address (a net.IPNet for which IsPrivate is true) of an
-- interface that is up, is no loopback, and whose name in lower case begins with none of the six
-- prefixes of virtual ones; or there is no such address, and it gives one of a virtual interface
-- that is up and no loopback; or, if those have none with a text either, "localhost".
pub lan_ip-Right :
    (interfaces : List Interface)
    → SomeOffers false interfaces (lan_ip (ok interfaces))
      ⊎ (((real : Text) → ¬ SomeOffers false interfaces real)
          × (SomeOffers true interfaces (lan_ip (ok interfaces))
              ⊎ ((lan_ip (ok interfaces) ≡ codes "localhost") × NoneVirtual interfaces)))
unfolding lan_ip
lan_ip-Right interfaces = elim (look_all-Right [] interfaces) [
  | inl real ↦ inl real
  | inr (empty, inl virtual) ↦ inr (empty, inl virtual)
  | inr (empty, inr (inl kept)) ↦ cc (sym kept.2)
  | inr (empty, inr (inr end)) ↦ inr (empty, inr (end.1, end.2))
]
