-- ===== src/Web/Page/Order.antt =====
-- The order in which the answers of a dashboard come.
use screwlogger.Base.{
  ℕ, zero, suc, ◌≤◌, ◌≡◌, refl, sym, ap, ◌∙◌, ◌≡⟨◌⟩◌, ◌∎, ◌≢◌, Option, none, some, List, [], ◌∷◌,
  arith, get_elem?, set, get_elem?-set_self, get_elem?-set_ne, set-set, set_comm,
}
use screwlogger.Web.Net.{Response, Request, Payload, answered, settle, failure_message}
use screwlogger.Web.Format.{Browser}
use screwlogger.Web.Page.State.{Page, Batch, Pending, dashboard_part}
use screwlogger.Web.Page.{deliver, remove_at, resume, report}
use screwlogger.Web.Page.Dashboards.{on_part, resolve}

-- Nothing is drawn while an answer is missing.
resolve_open :
    (b : Browser) (to : ℕ) (rs : List (Option Response)) (i : ℕ) (p : Page)
    → get_elem? rs i ≡ some none
    → resolve b to rs p ≡ p
unfolding resolve
resolve_open b to [] i p e = refl
resolve_open b to (none ∷ rs) i p e = refl
resolve_open b to (some r0 ∷ []) i p e = refl
resolve_open b to (some r0 ∷ none ∷ rs) i p e = refl
resolve_open b to (some r0 ∷ some r1 ∷ []) i p e = refl
resolve_open b to (some r0 ∷ some r1 ∷ none ∷ rs) i p e = refl
resolve_open b to (some r0 ∷ some r1 ∷ some r2 ∷ []) i p e = refl
resolve_open b to (some r0 ∷ some r1 ∷ some r2 ∷ none ∷ rs) i p e = refl
resolve_open b to (some r0 ∷ some r1 ∷ some r2 ∷ some r3 ∷ r ∷ rs) i p e = refl
resolve_open b to (some r0 ∷ some r1 ∷ some r2 ∷ some r3 ∷ []) zero p e = cc
resolve_open b to (some r0 ∷ some r1 ∷ some r2 ∷ some r3 ∷ []) (suc zero) p e = cc
resolve_open b to (some r0 ∷ some r1 ∷ some r2 ∷ some r3 ∷ []) (suc (suc zero)) p e = cc
resolve_open b to (some r0 ∷ some r1 ∷ some r2 ∷ some r3 ∷ []) (suc (suc (suc zero))) p e = cc
resolve_open b to (some r0 ∷ some r1 ∷ some r2 ∷ some r3 ∷ []) (suc (suc (suc (suc i)))) p e = cc

-- The batch with one more answer.
abbrev filled_batch : ℕ → Response → Batch → Batch
filled_batch i r batch = record batch { answers = set batch.answers i (some r) }

abbrev with_batch : ℕ → Batch → Page → Page
with_batch n batch p = record p { batches = set p.batches n batch }

on_part_open :
    (b : Browser) (n i j : ℕ) (r : Response) (p : Page) (batch : Batch)
    → get_elem? p.batches n ≡ some batch
    → get_elem? batch.answers j ≡ some none
    → i ≢ j
    → on_part b n i r p ≡ with_batch n (filled_batch i r batch) p
unfolding on_part
on_part_open b n i j r p batch e f ne =
    rw (e, on_part)
      (resolve_open b batch.to (set batch.answers i (some r)) j _ (get_elem?-set_ne _ i j _ ne ∙ f))

on_part_last :
    (b : Browser) (n i j : ℕ) (r s : Response) (p : Page) (batch : Batch)
    → get_elem? p.batches n ≡ some batch
    → on_part b n j s (with_batch n (filled_batch i r batch) p)
      ≡ resolve b batch.to
          (set (set batch.answers i (some r)) j (some s))
          (with_batch n (filled_batch j s (filled_batch i r batch)) p)
unfolding on_part
on_part_last b n i j r s p batch e =
    rw (get_elem?-set_self p.batches n (filled_batch i r batch) e, on_part, set-set)

on_part_comm :
    (b : Browser) (n i j : ℕ) (r s : Response) (p : Page) (batch : Batch)
    → get_elem? p.batches n ≡ some batch
    → get_elem? batch.answers i ≡ some none
    → get_elem? batch.answers j ≡ some none
    → i ≢ j
    → on_part b n j s (on_part b n i r p) ≡ on_part b n i r (on_part b n j s p)
on_part_comm b n i j r s p batch e f g ne =
    on_part b n j s (on_part b n i r p)
    ≡⟨ ap (on_part b n j s) (on_part_open b n i j r p batch e g ne) ⟩
      on_part b n j s (with_batch n (filled_batch i r batch) p)
    ≡⟨ on_part_last b n i j r s p batch e ⟩
      resolve b batch.to (set (set batch.answers i (some r)) j (some s))
        (with_batch n (filled_batch j s (filled_batch i r batch)) p)
    ≡⟨ ap (λ l. resolve b batch.to l (with_batch n (record batch { answers = l }) p))
        (set_comm batch.answers i j (some r) (some s) ne) ⟩
      resolve b batch.to (set (set batch.answers j (some s)) i (some r))
        (with_batch n (filled_batch i r (filled_batch j s batch)) p)
    ≡⟨ sym (on_part_last b n j i s r p batch e) ⟩
      on_part b n i r (with_batch n (filled_batch j s batch) p)
    ≡⟨ ap (on_part b n i r) (sym (on_part_open b n j i s p batch e f (λ q. ne (sym q)))) ⟩
      on_part b n i r (on_part b n j s p) ∎

get_elem?-remove_at_before :
    (k l : ℕ) (ps : List Pending) → k ≤ l → get_elem? (remove_at (suc l) ps) k ≡ get_elem? ps k
unfolding remove_at
get_elem?-remove_at_before k l [] h = refl
get_elem?-remove_at_before zero l (w ∷ ps) h = refl
get_elem?-remove_at_before (suc k) zero (w ∷ ps) h = absurd (omega (arith, h))
get_elem?-remove_at_before (suc k) (suc l) (w ∷ ps) h =
    get_elem?-remove_at_before k l ps (omega (arith, h))

get_elem?-remove_at_after :
    (k l : ℕ) (ps : List Pending) → k ≤ l → get_elem? (remove_at k ps) l ≡ get_elem? ps (suc l)
unfolding remove_at
get_elem?-remove_at_after k l [] h = refl
get_elem?-remove_at_after zero l (w ∷ ps) h = refl
get_elem?-remove_at_after (suc k) zero (w ∷ ps) h = absurd (omega (arith, h))
get_elem?-remove_at_after (suc k) (suc l) (w ∷ ps) h =
    get_elem?-remove_at_after k l ps (omega (arith, h))

remove_at_comm :
    (k l : ℕ) (ps : List Pending)
    → k ≤ l
    → remove_at l (remove_at k ps) ≡ remove_at k (remove_at (suc l) ps)
unfolding remove_at
remove_at_comm k l [] h = refl
remove_at_comm zero l (w ∷ ps) h = refl
remove_at_comm (suc k) zero (w ∷ ps) h = absurd (omega (arith, h))
remove_at_comm (suc k) (suc l) (w ∷ ps) h = ap (w ∷◌) (remove_at_comm k l ps (omega (arith, h)))

abbrev with_pending : List Pending → Page → Page
with_pending ps p = record p { pending = ps }

-- An answer of a server to one of the four requests reaches the batch, without a message.
deliver_part :
    (b : Browser) (now k status : ℕ) (d : Payload) (n i : ℕ) (r : Request) (p : Page)
    → get_elem? p.pending k ≡ some (record { request = r; callback = dashboard_part n i })
    → deliver b now k (answered status d) p
      ≡ on_part b n i (settle (answered status d)) (with_pending (remove_at k p.pending) p)
unfolding deliver report settle failure_message resume
deliver_part b now k status d n i r p e = rw (e, deliver) refl

module _ (b : Browser) (n : ℕ) (batch : Batch) (p : Page) where
  -- Two answers one after the other, the first of them not the last of its batch.
  delivered_twice :
      (t u k l i j : ℕ) (x y : ℕ) (c d : Payload) (f g : Request)
      → get_elem? p.batches n ≡ some batch
      → get_elem? batch.answers j ≡ some none
      → i ≢ j
      → get_elem? p.pending k ≡ some (record { request = f; callback = dashboard_part n i })
      → get_elem? (remove_at k p.pending) l
        ≡ some (record { request = g; callback = dashboard_part n j })
      → deliver b u l (answered y d) (deliver b t k (answered x c) p)
        ≡ on_part b n j (settle (answered y d)) (
            on_part b n i
              (settle (answered x c))
              (with_pending (remove_at l (remove_at k p.pending)) p))
  delivered_twice t u k l i j x y c d f g e h ne v w =
      let r = settle (answered x c) in
      let s = settle (answered y d) in
      let q = with_pending (remove_at k p.pending) p in
      let half = with_batch n (filled_batch i r batch) q in
      let last = with_pending (remove_at l (remove_at k p.pending)) p in
      ap (deliver b u l (answered y d))
        (deliver_part b t k x c n i f p v ∙ on_part_open b n i j r q batch e h ne)
      ∙ deliver_part b u l y d n j g half w
      ∙ ap (on_part b n j s) (sym (on_part_open b n i j r last batch e h ne))

-- Two requests of one dashboard wait at different places, and neither is answered yet. If the server
-- answers both, with any status, then the answers can come in either order, at any times: the page is
-- the same in the end, its message included. So the charts do not depend on which of the four requests
-- is served first.
pub deliver_comm :
    (b : Browser) (t u v w k l n i j x y : ℕ) (c e : Payload) (f g : Request) (p : Page)
    (batch : Batch)
    → get_elem? p.batches n ≡ some batch
    → get_elem? batch.answers i ≡ some none
    → get_elem? batch.answers j ≡ some none
    → i ≢ j
    → k ≤ l
    → get_elem? p.pending k ≡ some (record { request = f; callback = dashboard_part n i })
    → get_elem? p.pending (suc l) ≡ some (record { request = g; callback = dashboard_part n j })
    → deliver b u l (answered y e) (deliver b t k (answered x c) p)
      ≡ deliver b w k (answered x c) (deliver b v (suc l) (answered y e) p)
deliver_comm b t u v w k l n i j x y c e f g p batch h hi hj ne le first second =
    let r = settle (answered x c) in
    let s = settle (answered y e) in
    delivered_twice b n batch p t u k l i j x y c e f g h hj ne first
      (get_elem?-remove_at_after k l p.pending le ∙ second)
    ∙ ap (λ ps. on_part b n j s (on_part b n i r (with_pending ps p)))
        (remove_at_comm k l p.pending le)
    ∙ on_part_comm b n i j r s (with_pending (remove_at k (remove_at (suc l) p.pending)) p) batch h
        hi hj ne
    ∙ sym (
        delivered_twice b n batch p v w (suc l) k j i y x e c g f h hi (λ q. ne (sym q)) second
          (get_elem?-remove_at_before k l p.pending le ∙ first))
