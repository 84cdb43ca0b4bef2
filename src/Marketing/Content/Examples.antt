-- ===== src/Marketing/Content/Examples.antt =====
-- Content that is refused.
use crmtsi_app.Common.{◌≡◌, refl, none, some, [], ◌∷◌, err, codes, text_eq}
use crmtsi_app.Marketing.Content.{
  Block, normalize_campaign_content, normalize_all, normalize_block, variables_in, variables_from,
  variable_at, letters,
}

abbrev other_variable : Block
other_variable = record {
  kind = "heading";
  text = codes "{{{contact.mail}}";
  marks = "bold" ∷ [];
  url = none;
}

refuses-variable :
    normalize_campaign_content (some (other_variable ∷ [])) ≡ err "CONTENT_VARIABLE_UNSUPPORTED"
unfolding normalize_campaign_content normalize_all normalize_block variables_in variables_from
    variable_at letters text_eq
refuses-variable = refl
