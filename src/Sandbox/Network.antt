-- ===== src/Sandbox/Network.antt =====
-- `network_for` of src/omarchy_yolo/config.py: which children have a network.
use omarchy_yolo.Prelude.{
  String, ◌≡◌, inl, inr, refl, Bool, true, false, Option, none, some, ◌==◌, string_eq, eq_of_==,
  if◌then◌else◌, Bool-cases,
}
use omarchy_yolo.Config.{SandboxConfig, or_network, network_for}

-- Whether a profile has a network: its own setting decides; without one, gates are offline in
-- hostile mode, and the general setting decides for the others.
pub data Networked (c : SandboxConfig) (profile : String) : Bool → Type 0 where
  review_set : (b : Bool) → profile ≡ "review" → c.review_network ≡ some b → Networked c profile b
  review_unset : profile ≡ "review" → c.review_network ≡ none → Networked c profile c.network
  gate_set : (b : Bool) → profile ≡ "gate" → c.gate_network ≡ some b → Networked c profile b
  gate_hostile :
      profile ≡ "gate"
      → c.gate_network ≡ none
      → c.hostile_repo_mode ≡ true
      → Networked c profile false
  gate_trusted :
      profile ≡ "gate"
      → c.gate_network ≡ none
      → c.hostile_repo_mode ≡ false
      → Networked c profile c.network
  agent :
      (profile == "review") ≡ false → (profile == "gate") ≡ false → Networked c profile c.network

module _ (c : SandboxConfig) (profile : String) where
  pub network_for-Networked : Networked c profile (network_for c profile)
  unfolding network_for
  network_for-Networked = elim (Bool-cases (profile == "review")) [
    | inl review ↦ rw review (of_review (eq_of_== profile "review" review) c.review_network refl)
    | inr other ↦ rw other (elim (Bool-cases (profile == "gate")) [
      | inl gate ↦
          rw gate
            (of_gate (eq_of_== profile "gate" gate) c.gate_network c.hostile_repo_mode refl refl)
      | inr work ↦ rw work (agent other work)
    ])
  ]
    where
      of_review :
          profile ≡ "review"
          → (o : Option Bool) → c.review_network ≡ o
          → Networked c profile (or_network o c.network)
      of_review p none e = review_unset p e
      of_review p (some b) e = review_set b p e

      of_gate :
          profile ≡ "gate"
          → (o : Option Bool) (hostile : Bool) → c.gate_network ≡ o
          → c.hostile_repo_mode ≡ hostile
          → Networked c profile (or_network o (if hostile then false else c.network))
      of_gate p none true e m = gate_hostile p e m
      of_gate p none false e m = gate_trusted p e m
      of_gate p (some b) hostile e m = gate_set b p e
