-- ===== src/Web/Page/Rules.antt =====
-- The rules panel of internal/server/web/app.js: `loadRules`, `fillRuleForm`, `resetRuleForm`,
-- `saveRule` and `deleteRule`, each with the callback of its answer.
use screwlogger.Base.{
  ℕ, Bool, true, false, not, ◌||◌, none, some, List, [], ◌∷◌, ◌==◌, if◌then◌else◌, is_empty, Text,
  codes, concat,
}
use screwlogger.Web.Wire.{Rule}
use screwlogger.Web.Net.{
  Response, get, put, delete, rule_body, pattern_body, rules_of, recategorized_of,
}
use screwlogger.Web.Uri.{trim}
use screwlogger.Web.Format.Decimal.{show}
use screwlogger.Web.Page.State.{
  Page, Table, no_rows, filled, api, toast, if_authed, got_rules, rule_saved, rule_deleted,
}

-- `loadRules`
unfoldable pub load_rules : Page → Page
load_rules p = api get (codes "/admin/api/rules") none got_rules p

abbrev pub rule_rows : List Rule → Table Rule
rule_rows [] = no_rows
rule_rows (r ∷ rs) = filled (r ∷ rs)

-- The rest of the callback, for an answer that `authed` lets through.
unfoldable pub then_rules : Response → Page → Page
then_rules res p = record p { rules_table = rule_rows (rules_of res.payload) }

unfoldable pub on_rules : Response → Page → Page
unfolding if_authed then_rules
on_rules res = if_authed res (then_rules res)

-- `fillRuleForm`
unfoldable pub fill_rule_form : Rule → Page → Page
fill_rule_form r p = record p {
  forms = record p.forms {
    rule_pattern = r.pattern;
    rule_category = r.category;
    rule_apply = false;
    rule_cancel_hidden = false;
  };
}

-- `resetRuleForm`
unfoldable pub reset_rule_form : Page → Page
reset_rule_form p = record p {
  forms = record p.forms {
    rule_pattern = [];
    rule_category = [];
    rule_apply = false;
    rule_cancel_hidden = true;
  };
}

-- `saveRule`
unfoldable pub save_rule : Page → Page
save_rule p =
    let pattern = trim p.forms.rule_pattern in
    let category = trim p.forms.rule_category in
    if is_empty pattern || is_empty category
    then p
    else api put (codes "/admin/api/rules") (some (rule_body pattern category p.forms.rule_apply))
        rule_saved p

-- `extra` of `saveRule`
abbrev pub remapped : ℕ → Text
remapped n =
    if n == 0 then [] else concat (codes " (" ∷ show n ∷ codes " heartbeats re-mapped)" ∷ [])

-- The rest of the callback, for an answer that `authed` lets through.
unfoldable pub then_rule_saved : Response → Page → Page
unfolding load_rules reset_rule_form
then_rule_saved res p = load_rules (
    toast (concat (codes "Rule saved" ∷ remapped (recategorized_of res.payload) ∷ [])) false
      (reset_rule_form p))

unfoldable pub on_rule_saved : Response → Page → Page
unfolding if_authed then_rule_saved
on_rule_saved res = if_authed res (then_rule_saved res)

-- `deleteRule`; the flag is the answer to `confirm`.
unfoldable pub delete_rule : Bool → Text → Page → Page
delete_rule confirmed pattern p =
    if not confirmed
    then p
    else api delete (codes "/admin/api/rules") (some (pattern_body pattern)) rule_deleted p

-- The rest of the callback, for an answer that `authed` lets through.
unfoldable pub then_rule_deleted : Page → Page
unfolding load_rules
then_rule_deleted p = load_rules (toast (codes "Rule deleted") false p)

unfoldable pub on_rule_deleted : Response → Page → Page
unfolding if_authed then_rule_deleted
on_rule_deleted res = if_authed res (then_rule_deleted)
