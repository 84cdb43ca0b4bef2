-- ===== src/Marketing/Compile/Examples.antt =====
-- A paragraph with a variable, and a link.
use crmtsi_app.Common.{
  ◌≡◌, refl, false, Option, none, some, List, [], ◌∷◌, ok, Text, text_eq, codes, keep,
}
use crmtsi_app.Marketing.Content.{
  Block, variable_at, letters, variables_in, variables_from, normalize_block, normalize_all,
  normalize_campaign_content, get_capability_profile,
}
use crmtsi_app.Marketing.Compile.{
  Variables, Url, Compiled, escape_html, substitute_variables, substitute_from, safe_url,
  compile_block, compile_blocks, compile_campaign_content,
}
use crmtsi_app.Marketing.Compile.Safe.{IsHtml, compile_campaign_content-IsHtml}

abbrev web : Text → Option Url
web t = some (record { protocol = codes "https:"; has_credentials = false; href = t })

abbrev hello : Block
hello = record { kind = "paragraph"; text = codes "Hi {{contact.name}}"; marks = []; url = none }

abbrev more : Block
more = record { kind = "button"; text = codes "More"; marks = []; url = some (codes "https://a.b") }

abbrev content : Option (List Block)
content = some (hello ∷ more ∷ [])

abbrev named : Variables
named = (codes "contact.name", codes "<b>") ∷ []

abbrev compiled : Compiled
compiled = record {
  html = codes "<p>Hi &lt;b&gt;</p><a href=\"https://a.b\" rel=\"noopener noreferrer\">More</a>";
  text = codes "Hi <b>" ∷ codes "More" ∷ [];
}

compiles-content : compile_campaign_content web "waha" named content ≡ ok compiled
unfolding compile_campaign_content normalize_campaign_content normalize_all normalize_block
    variables_in variables_from variable_at letters get_capability_profile compile_blocks
    compile_block substitute_variables substitute_from safe_url escape_html text_eq keep
compiles-content = refl

compile_campaign_content-IsHtml_example : IsHtml web compiled.html
compile_campaign_content-IsHtml_example =
    compile_campaign_content-IsHtml web "waha" named content compiled compiles-content
