-- ===== src/Web/Page/Reachable.antt =====
-- What holds of every page that can come about, whatever the operator does and the server answers.
use screwlogger.Base.{ℕ, zero, suc, refl, List, [], ◌∷◌, All, All-append}
use screwlogger.Web.View.{
  IsWhole, initial_view-IsWhole, show_login-IsWhole, show_app-IsWhole, switch_view-IsWhole,
  clear_error-IsWhole, show_error-IsWhole,
}
use screwlogger.Web.Charts.Registry.{NoLeak, no_charts-NoLeak, render-NoLeak}
use screwlogger.Web.Format.{Browser}
use screwlogger.Web.Routes.{device_list, IsRouted}
use screwlogger.Web.Page.State.{Page, Pending, api}
use screwlogger.Web.Page.Session.{bootstrap}
use screwlogger.Web.Page.{remove_at, Reach}
use screwlogger.Web.Page.Kept.{Invariant, Closed, waiting}
use screwlogger.Web.Page.Kept.Answers.{Reach-Holds}

abbrev ViewsWhole : Invariant
ViewsWhole v c ps = IsWhole v

ViewsWhole-Closed : Closed ViewsWhole
ViewsWhole-Closed = record {
  send = λ v c ps r k routed h. h;
  answer = λ v c ps i h. h;
  draw = λ v c ps loaded place empty config h. h;
  login = λ v c ps h. show_login-IsWhole v h;
  enter = λ v c ps h. show_app-IsWhole v h;
  switch = λ name v c ps h. switch_view-IsWhole name v h;
  clear = λ v c ps h. clear_error-IsWhole v h;
  fail = λ m v c ps h. show_error-IsWhole m v h;
}

abbrev ChartsTracked : Invariant
ChartsTracked v c ps = NoLeak c

ChartsTracked-Closed : Closed ChartsTracked
ChartsTracked-Closed = record {
  send = λ v c ps r k routed h. h;
  answer = λ v c ps i h. h;
  draw = λ v c ps loaded place empty config h. render-NoLeak loaded place empty config c h;
  login = λ v c ps h. h;
  enter = λ v c ps h. h;
  switch = λ name v c ps h. h;
  clear = λ v c ps h. h;
  fail = λ m v c ps h. h;
}

abbrev AllRouted : Invariant
AllRouted v c ps = All (λ w. IsRouted w.request) ps

AllRouted-remove_at :
    (i : ℕ) (ps : List Pending)
    → All (λ w. IsRouted w.request) ps
    → All (λ w. IsRouted w.request) (remove_at i ps)
unfolding remove_at
AllRouted-remove_at i [] h = tt
AllRouted-remove_at zero (w ∷ ps) h = h.1
AllRouted-remove_at (suc i) (w ∷ ps) h = (h.0, AllRouted-remove_at i ps h.1)

AllRouted-Closed : Closed AllRouted
AllRouted-Closed = record {
  send = λ v c ps r k routed h.
      All-append (λ w. IsRouted w.request) ps (waiting r k ∷ []) h (routed, tt);
  answer = λ v c ps i h. AllRouted-remove_at i ps h;
  draw = λ v c ps loaded place empty config h. h;
  login = λ v c ps h. h;
  enter = λ v c ps h. h;
  switch = λ name v c ps h. h;
  clear = λ v c ps h. h;
  fail = λ m v c ps h. h;
}

-- In every page that can come about, exactly one of the login view and the application is shown, and
-- exactly one panel of the application.
pub Reach-IsWhole : (b : Browser) (p : Page) → Reach b p → IsWhole p.view
Reach-IsWhole b p r =
    Reach-Holds ViewsWhole ViewsWhole-Closed b (unfold bootstrap api in initial_view-IsWhole) r

-- In every page that can come about, a canvas has at most one chart that has not been destroyed, and
-- it is the one that the registry knows.
pub Reach-NoLeak : (b : Browser) (p : Page) → Reach b p → NoLeak p.charts
Reach-NoLeak b p r =
    Reach-Holds ChartsTracked ChartsTracked-Closed b (unfold bootstrap api in no_charts-NoLeak) r

-- Every request that waits in a page that can come about has the method, the path and the body of a
-- route of the server. An identifier in its path is percent-encoded without "/", "?", "#", "&" and "=",
-- and is one segment that the route takes: neither empty nor "." nor "..", unless the identifier itself
-- is. A device name, a category, a label, or a pattern to be saved, is not empty in its body and has no
-- white space at either end.
pub Reach-IsRouted : (b : Browser) (p : Page) → Reach b p → All (λ w. IsRouted w.request) p.pending
Reach-IsRouted b p r =
    Reach-Holds AllRouted AllRouted-Closed b (unfold bootstrap api in ((device_list, tt, refl), tt))
      r
