-- ===== src/System/Submit.antt =====
-- What accepted calls of the API leave in pendingCreate (watcher.go).
use mathlib.Core.List.{append_assoc, append-nil}
use gaio.Common.{
  ℕ, ◌+◌, ◌<◌, ◌≡◌, refl, ap, sym, ◌∙◌, false, List, [], ◌∷◌, ◌++◌, Option, some, map, arith, ◌==◌,
  ==_refl, count, count-append,
}
use gaio.Types.{Buffer, buffer_length, op_write}
use gaio.Watcher.{Watcher, cb_of}
use gaio.System.{System, Request, new_cb, create_at, submit, aio_create, write}
use gaio.System.Step.{IsProper}
use gaio.System.Places.{IsSafe, Got, get_cb-Got, submit-IsSafe}

-- `t` is `s` with one more request in pendingCreate, for `r` on the connection at `ptr`.
pub record Submitted (s : System) (r : Request) (ptr : ℕ) (t : System) : Type 0 where
  pub cb : ℕ
  pub queue : t.pending_create ≡ s.pending_create ++ cb ∷ []
  pub asks : cb_of t.watcher cb ≡ new_cb r ptr
  pub others : (q : ℕ) → 0 < count q s.pending_create → cb_of t.watcher q ≡ cb_of s.watcher q
  pub safe : IsSafe t
  pub going : t.watcher.die ≡ false

same_cbs :
    (s : System) (r : ℕ × System) → Got s r → (q : ℕ) → cb_of r.1.watcher q ≡ cb_of s.watcher q
same_cbs s r g q = ap (λ (w : Watcher). cb_of w q) g.watcher

submit-Submitted :
    (s s1 : System) (p : ℕ) (r : Request) (ptr : ℕ)
    → IsProper r
    → IsSafe s
    → Got s (p, s1)
    → s.watcher.die ≡ false
    → Submitted s r ptr (submit p s1 r ptr).0
unfolding submit
submit-Submitted s s1 p r ptr proper v g on =
    let on1 : s1.watcher.die ≡ false = ap (λ (w : Watcher). w.die) g.watcher ∙ on in
    record {
      cb = p;
      queue = rw on1 (ap (λ l. l ++ p ∷ []) g.create);
      asks = rw (on1, ==_refl p) refl;
      others = λ q h.
          let apart : (p == q) ≡ false = ground (arith, g.free, g.create) in
          rw (on1, apart) (same_cbs s (p, s1) g q);
      safe = submit-IsSafe s s1 p r ptr proper v g;
      going = rw on1 refl;
    }

pub aio_create-Submitted :
    (pick : ℕ) (s : System) (r : Request) (ptr : ℕ)
    → IsProper r
    → (ptr == 0) ≡ false
    → IsSafe s
    → s.watcher.die ≡ false
    → Submitted s r ptr (aio_create pick s r (some ptr)).0
unfolding aio_create create_at
aio_create-Submitted pick s r ptr proper real v on =
    rw real (submit-Submitted s _ _ r ptr proper v (get_cb-Got pick s v.unique v.unused) on)

-- Several calls in a row. What the pool gives to each depends on the state that it finds.
unfoldable pub create_all : (System → ℕ) → System → List (Request × ℕ) → System
create_all pick s [] = s
create_all pick s ((r, ptr) ∷ qs) = create_all pick (aio_create (pick s) s r (some ptr)).0 qs

-- Each is for a connection that is not nil, and sets no deadline with a Free.
abbrev pub AreProper : List (Request × ℕ) → Type 0
AreProper [] = Unit {0}
AreProper ((r, ptr) ∷ qs) = IsProper r × ((ptr == 0) ≡ false) × AreProper qs

-- `t` is `s` with one more request in pendingCreate for each of the list, in order.
pub record SubmittedAll (s : System) (qs : List (Request × ℕ)) (t : System) : Type 0 where
  pub cbs : List ℕ
  pub queue : t.pending_create ≡ s.pending_create ++ cbs
  pub asks : map (cb_of t.watcher) cbs ≡ map (λ (q : Request × ℕ). new_cb q.0 q.1) qs
  pub others : (q : ℕ) → 0 < count q s.pending_create → cb_of t.watcher q ≡ cb_of s.watcher q
  pub safe : IsSafe t
  pub going : t.watcher.die ≡ false

pub create_all-SubmittedAll :
    (pick : System → ℕ) (s : System) (qs : List (Request × ℕ))
    → AreProper qs
    → IsSafe s
    → s.watcher.die ≡ false
    → SubmittedAll s qs (create_all pick s qs)
unfolding create_all
create_all-SubmittedAll pick s [] proper v on = record {
  cbs = [];
  queue = sym (append-nil s.pending_create);
  asks = refl;
  others = λ q h. refl;
  safe = v;
  going = on;
}
create_all-SubmittedAll pick s ((r, ptr) ∷ qs) (p, real, proper) v on =
    let a = aio_create-Submitted (pick s) s r ptr p real v on in
    let s1 = (aio_create (pick s) s r (some ptr)).0 in
    let b = create_all-SubmittedAll pick s1 qs proper a.safe a.going in
    let split : (q : ℕ)
        → count q s1.pending_create ≡ count q s.pending_create + count q (a.cb ∷ []) =
      λ q. ap (count q) a.queue ∙ count-append q s.pending_create (a.cb ∷ []) in
    let t = create_all pick s1 qs in
    let first : cb_of t.watcher a.cb ≡ new_cb r ptr =
      b.others a.cb (ground (arith, split a.cb, ==_refl a.cb)) ∙ a.asks in
    record {
      cbs = a.cb ∷ b.cbs;
      queue =
          b.queue ∙ ap (λ l. l ++ b.cbs) a.queue ∙ append_assoc s.pending_create (a.cb ∷ []) b.cbs;
      asks = rw (first, b.asks) refl;
      others = λ q h. b.others q (omega (arith, split q)) ∙ a.others q h;
      safe = b.safe;
      going = b.going;
    }

-- A write of a buffer that is not empty.
abbrev pub asks_write : ℕ → Buffer → Request
asks_write ctx buf = record { ctx = ctx; op = op_write; buf = buf; deadline = 0; read_full = false }

pub write-aio_create :
    (pick : ℕ) (s : System) (ctx : ℕ) (conn : Option ℕ) (buf : Buffer)
    → (buffer_length buf == 0) ≡ false
    → write pick s ctx conn buf ≡ aio_create pick s (asks_write ctx buf) conn
unfolding write
write-aio_create pick s ctx conn buf e = rw e refl
