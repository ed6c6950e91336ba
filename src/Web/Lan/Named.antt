-- ===== src/Web/Lan/Named.antt =====
-- Which names of interfaces lanIP takes for virtual ones (Web/Lan).
use timberlake.Base.{
  ◌≡◌, refl, sym, ap, ◌∙◌, ◌⊎◌, inl, inr, Bool, true, false, not, ◌||◌, ◌++◌, drop, length,
  Bool-cases,
}
use timberlake.Strings.{to_lower, has_prefix}
use timberlake.Strings.Laws.{has_prefix-append, has_prefix-drop}
use timberlake.Io.{Text, codes}
use timberlake.Web.Lan.{is_virtual}

-- The name of the interface in lower case begins with p.
abbrev pub Begins : Text → Text → Type 0
Begins p name = (rest : Text) × (to_lower name ≡ p ++ rest)

-- The names of tunnels and of the networks of containers.
abbrev pub VirtualName : Text → Type 0
VirtualName name =
    ((((Begins (codes "utun") name ⊎ Begins (codes "tun") name) ⊎ Begins (codes "tap") name)
        ⊎ Begins (codes "docker") name)
      ⊎ Begins (codes "br-") name)
    ⊎ Begins (codes "veth") name

unfoldable pub Named : Bool → Text → Type 0
Named true name = VirtualName name
Named false name = ¬ VirtualName name

-- A test tells whether P.
abbrev Tells : Bool → Type 0 → Type 0
Tells b P = ((b ≡ true) × P) ⊎ ((b ≡ false) × ¬ P)

or-Tells : (a b : Bool) {P Q : Type 0} → Tells a P → Tells b Q → Tells (a || b) (P ⊎ Q)
or-Tells a b (inl (e, p)) q = inl (rw e refl, inl p)
or-Tells a b (inr (e, not_p)) (inl (f, q)) = inl (rw (e, f) refl, inr q)
or-Tells a b (inr (e, not_p)) (inr (f, not_q)) =
    inr (rw (e, f) refl, λ either. elim either [ inl p ↦ not_p p | inr q ↦ not_q q ])

has_prefix-Tells : (p name : Text) → Tells (has_prefix p (to_lower name)) (Begins p name)
has_prefix-Tells p name = elim (Bool-cases (has_prefix p (to_lower name))) [
  | inl e ↦ inl (e, (drop (length p) (to_lower name), sym (has_prefix-drop p (to_lower name) e)))
  | inr e ↦
      inr (e, λ begins. cc (sym e ∙ ap (has_prefix p) begins.1 ∙ has_prefix-append p begins.0))
]

is_virtual-Tells : (name : Text) → Tells (is_virtual name) (VirtualName name)
unfolding is_virtual
is_virtual-Tells name =
    let begins : (p : Text) → Tells (has_prefix p (to_lower name)) (Begins p name) =
      λ p. has_prefix-Tells p name in
    or-Tells _ _
      (or-Tells _ _
        (or-Tells _ _
          (or-Tells _ _ (or-Tells _ _ (begins (codes "utun")) (begins (codes "tun")))
            (begins (codes "tap")))
          (begins (codes "docker")))
        (begins (codes "br-")))
      (begins (codes "veth"))

pub is_virtual-Named : (v : Bool) (name : Text) → is_virtual name ≡ v → Named v name
unfolding Named
is_virtual-Named true name h = elim (is_virtual-Tells name) [
  | inl (e, is) ↦ is
  | inr (e, is_not) ↦ cc (sym h ∙ e)
]
is_virtual-Named false name h = elim (is_virtual-Tells name) [
  | inl (e, is) ↦ cc (sym h ∙ e)
  | inr (e, is_not) ↦ is_not
]

pub unlike : (v : Bool) (name : Text) → Named v name → ¬ Named (not v) name
unfolding Named
unlike true name is is_not = is_not is
unlike false name is_not is = is_not is
