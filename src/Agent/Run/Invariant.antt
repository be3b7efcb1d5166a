-- ===== src/Agent/Run/Invariant.antt =====
-- The buffer of internal/agent/agent.go is used by one goroutine at a time, and only while it is open.
use screwlogger.Base.{
  ◌≡◌, refl, Bool, true, false, not, ◌&&◌, ◌||◌, Option, none, some, arith, Text,
}
use screwlogger.Agent.Buffer.{Json}
use screwlogger.Agent.Heartbeat.{observe}
use screwlogger.Server.Store.{Sent}
use screwlogger.Agent.Observe.{Agent}
use screwlogger.Agent.Run.{
  Poller, appending, joining, wants_close, closing, returned, Uploader, flushing, ended, Owner,
  nobody, poller_owns, uploader_owns, Threads, observed, Step, cancelling, ticking, locks_append,
  appends, stops, joins, locks_close, closes, fires, locks_flush, flushes, resets, leaves, Reached,
  at_start, and_then,
}

-- Whether a goroutine is between `Lock` and `Unlock`, where it touches the buffer.
abbrev pub poller_inside : Poller → Bool
poller_inside (appending h) = true
poller_inside closing = true
poller_inside _ = false

abbrev pub uploader_inside : Uploader → Bool
uploader_inside flushing = true
uploader_inside _ = false

abbrev pub owner_of : Bool → Bool → Owner
owner_of true u = poller_owns
owner_of false true = uploader_owns
owner_of false false = nobody

-- The goroutine of `Run` waits for the other one, or is past that.
abbrev pub is_closing : Poller → Bool
is_closing wants_close = true
is_closing closing = true
is_closing returned = true
is_closing _ = false

abbrev pub is_returned : Poller → Bool
is_returned returned = true
is_returned _ = false

abbrev pub is_ended : Uploader → Bool
is_ended ended = true
is_ended _ = false

abbrev pub is_joining : Poller → Bool
is_joining joining = true
is_joining p = is_closing p

pub record IsExclusive (s : Threads) : Type 0 where
  pub owned : s.mutex ≡ owner_of (poller_inside s.poller) (uploader_inside s.uploader)
  pub alone : (poller_inside s.poller && uploader_inside s.uploader) ≡ false
  pub last : (is_closing s.poller && not (is_ended s.uploader)) ≡ false
  pub file : s.is_open ≡ not (is_returned s.poller)
  pub asked : (is_joining s.poller && not s.cancelled) ≡ false

observed-polls :
    (j : Json) (path_match : Text → Text → Option Bool) (uuid app : Text) (o : Option Sent)
    (a : Agent)
    → (poller_inside (observed j path_match uuid app o a) ≡ false)
      × (is_joining (observed j path_match uuid app o a) ≡ false)
      × (is_closing (observed j path_match uuid app o a) ≡ false)
      × (is_returned (observed j path_match uuid app o a) ≡ false)
observed-polls j path_match uuid app none a = (refl, refl, refl, refl)
observed-polls j path_match uuid app (some h) a = (refl, refl, refl, refl)

module _ (j : Json) (path_match : Text → Text → Option Bool) where
  Step-IsExclusive :
      (s t : Threads) (b : Bool) → Step j path_match s b t → IsExclusive s → IsExclusive t
  Step-IsExclusive s t b cancelling i = record {
    owned = i.owned;
    alone = i.alone;
    last = i.last;
    file = i.file;
    asked = ground (arith, i.asked);
  }
  Step-IsExclusive s t b (ticking uuid now app active p) i = record {
    owned = ground (
      arith,
      i.owned,
      p,
      observed-polls j path_match uuid app (observe now app active s.agent.builder).0 s.agent,
    );
    alone = ground (
      arith,
      i.alone,
      observed-polls j path_match uuid app (observe now app active s.agent.builder).0 s.agent,
    );
    last = ground (
      arith,
      observed-polls j path_match uuid app (observe now app active s.agent.builder).0 s.agent,
    );
    file = ground (
      arith,
      i.file,
      p,
      observed-polls j path_match uuid app (observe now app active s.agent.builder).0 s.agent,
    );
    asked = ground (
      arith,
      observed-polls j path_match uuid app (observe now app active s.agent.builder).0 s.agent,
    );
  }
  Step-IsExclusive s t b (locks_append h p m) i = record {
    owned = ground (arith, i.owned, p, m);
    alone = ground (arith, i.owned, p, m);
    last = refl;
    file = ground (arith, i.file, p);
    asked = refl;
  }
  Step-IsExclusive s t b (appends h p) i = record {
    owned = ground (arith, i.alone, p);
    alone = refl;
    last = refl;
    file = ground (arith, i.file, p);
    asked = refl;
  }
  Step-IsExclusive s t b (stops p c) i = record {
    owned = ground (arith, i.owned, p);
    alone = refl;
    last = refl;
    file = ground (arith, i.file, p);
    asked = ground (arith, c);
  }
  Step-IsExclusive s t b (joins p e) i = record {
    owned = ground (arith, i.owned, p, e);
    alone = refl;
    last = ground (arith, e);
    file = ground (arith, i.file, p);
    asked = ground (arith, i.asked, p);
  }
  Step-IsExclusive s t b (locks_close p m) i = record {
    owned = refl;
    alone = ground (arith, i.owned, p, m);
    last = ground (arith, i.last, p);
    file = ground (arith, i.file, p);
    asked = ground (arith, i.asked, p);
  }
  Step-IsExclusive s t b (closes p) i = record {
    owned = ground (arith, i.alone, p);
    alone = refl;
    last = ground (arith, i.last, p);
    file = refl;
    asked = ground (arith, i.asked, p);
  }
  Step-IsExclusive s t b (fires u) i = record {
    owned = ground (arith, i.owned, u);
    alone = ground (arith, i.alone);
    last = ground (arith, i.last, u);
    file = i.file;
    asked = i.asked;
  }
  Step-IsExclusive s t b (locks_flush u m) i = record {
    owned = ground (arith, i.owned, u, m);
    alone = ground (arith, i.owned, u, m);
    last = ground (arith, i.last, u);
    file = i.file;
    asked = i.asked;
  }
  Step-IsExclusive s t b (flushes answer u) i = record {
    owned = ground (arith, i.alone, u);
    alone = ground (arith, i.alone);
    last = ground (arith, i.last, u);
    file = i.file;
    asked = i.asked;
  }
  Step-IsExclusive s t b (resets failed u) i = record {
    owned = ground (arith, i.owned, u);
    alone = ground (arith, i.alone);
    last = ground (arith, i.last, u);
    file = i.file;
    asked = i.asked;
  }
  Step-IsExclusive s t b (leaves u c) i = record {
    owned = ground (arith, i.owned, u);
    alone = ground (arith, i.alone);
    last = ground (arith, i.last, u);
    file = i.file;
    asked = i.asked;
  }

  pub Reached-IsExclusive : (a : Agent) (s : Threads) → Reached j path_match a s → IsExclusive s
  Reached-IsExclusive a s at_start = record {
    owned = refl;
    alone = refl;
    last = refl;
    file = refl;
    asked = refl;
  }
  Reached-IsExclusive a s (and_then r t b before step) =
      Step-IsExclusive r t b step (Reached-IsExclusive a r before)

inside_open :
    (p : Poller) (u : Uploader)
    → (is_closing p && not (is_ended u)) ≡ false
    → ((poller_inside p || uploader_inside u) && is_returned p) ≡ false
inside_open p u h = ground arith

closed_ended :
    (p : Poller) (u : Uploader)
    → (is_closing p && not (is_ended u)) ≡ false
    → (is_returned p && not (is_ended u)) ≡ false
closed_ended p u h = ground arith

-- In every order of their steps the two goroutines never use the buffer at the same time, each of
-- them uses it only while its file is open, and the file is closed only after the goroutine that
-- uploads has ended.
pub run_exclusive :
    (j : Json) (path_match : Text → Text → Option Bool) (a : Agent) (s : Threads)
    → Reached j path_match a s
    → ((poller_inside s.poller && uploader_inside s.uploader) ≡ false)
      × (((poller_inside s.poller || uploader_inside s.uploader) && not s.is_open) ≡ false)
      × ((not s.is_open && not (is_ended s.uploader)) ≡ false)
run_exclusive j path_match a s r =
    let i = Reached-IsExclusive j path_match a s r in
    (
      i.alone,
      ground (arith, i.file, inside_open s.poller s.uploader i.last),
      ground (arith, i.file, closed_ended s.poller s.uploader i.last),
    )
