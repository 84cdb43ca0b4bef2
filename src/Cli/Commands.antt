-- ===== src/Cli/Commands.antt =====
-- validateCommand: what a command must come with.
use crmtsi_app.Common.{
  ◌≡◌, refl, true, false, ◌⊎◌, ◌↔◌, List, [], ◌∷◌, ok, Text, text_eq, codes, arith,
}
use crmtsi_app.Cli.{
  commands, destructive, has_pair, Global, is_given, parse_command, confirm, confirm_destructive,
  validate_command,
}

-- What the options must hold for a command: a tenant, but for the health check, and a key and a
-- confirmation, if the command is destructive.
abbrev pub IsCovered : Global → Text → Text → Type 0
IsCovered g family action =
    (has_pair commands family action ≡ true)
    × ((text_eq family (codes "health") ≡ true) ⊎ (is_given g.tenant ≡ true))
    × ((has_pair destructive family action ≡ false)
        ⊎ ((is_given g.idempotency_key ≡ true) × (g.yes ≡ true)))

-- No command, or two words that name a command that the options cover.
abbrev pub IsValid : Global → List Text → Type 0
IsValid g [] = Unit
IsValid g (family ∷ []) = ⊥
IsValid g (family ∷ action ∷ []) = IsCovered g family action
IsValid g (_ ∷ _ ∷ _ ∷ _) = ⊥

-- The validation passes exactly the command lines that `IsValid` describes.
pub validate_command_iff :
    (g : Global) (command : List Text)
    → (validate_command (record { global = g; command = command }) ≡ ok tt) ↔ IsValid g command
unfolding validate_command parse_command confirm confirm_destructive
validate_command_iff g [] = ((λ _. tt), (λ _. refl))
validate_command_iff g (family ∷ []) = ((λ h. cc), (λ h. absurd h))
validate_command_iff g (family ∷ action ∷ []) = ground arith
validate_command_iff g (a ∷ b ∷ c ∷ d) = ((λ h. cc), (λ h. absurd h))
