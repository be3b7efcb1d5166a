-- ===== src/Web/Page/Renaming.antt =====
-- Rename forms: what happens once.
use mathlib.Core.Option
use screwlogger.Base.{ℕ, Bool, Option, get_elem?}
use screwlogger.Web.Page.State.{Page, Rename}

-- Whether the form of that number is done.
abbrev pub done_of : ℕ → Page → Option Bool
done_of n p = Option.map (λ (x : Rename). x.done) (get_elem? p.renames n)
