-- ===== src/Watcher/Sized/Served.antt =====
-- handleEvents, handleGC and the timer's case (watcher.go), for the sizes of the requests.

use gaio.Common.{
  ℕ, zero, suc, Bool, true, false, List, [], ◌∷◌, Option, none, some, ltb, length, lookup, is_some,
  refl, ◌∙◌, if_both,
}
use gaio.Types.{deadline_exceeded, Side, readers, writers, Event}
use gaio.Timed.{at, pop}
use gaio.Kernel.{Kernel}
use gaio.Watcher.{Watcher, cb_of, set_err, dequeue, try_side, deliver}
use gaio.Timed.Bodies.{pop-SameBodies, forget-SameBodies}
use gaio.Watcher.Handlers.{
  is_empty, unqueue, retry, retry_if, handle_event, handle_events, release_found, release_all,
  handle_gc, time_out, expire_loop, expire,
}
use gaio.Watcher.Sized.{Sized}
use gaio.Watcher.Sized.Handled.{
  Sized-timed, set_err-Sized, dequeue-Sized, unqueue-Sized, deliver-Sized, try_side-Sized,
  release_conn-Sized,
}

module _ (k : Kernel) where
  retry-Sized :
      (side : Side) (w : Watcher) (ident : ℕ) (ps : List ℕ)
      → Sized w
      → Sized (retry k side w ident ps)
  unfolding retry
  retry-Sized side w ident [] v = v
  retry-Sized side w ident (p ∷ ps) v =
      let t = try_side k side w ident p in
      let v' = try_side-Sized k side w ident p v in
      if_both Sized t.0 _ _
        (retry-Sized side (deliver k (dequeue t.1 ident side p) p) ident ps
          (deliver-Sized k (dequeue t.1 ident side p) p (dequeue-Sized t.1 ident side p v')))
        v'

  retry_if-Sized :
      (b : Bool) (side : Side) (w : Watcher) (ident : ℕ)
      → Sized w
      → Sized (retry_if k b side w ident)
  unfolding retry_if
  retry_if-Sized true side w ident v = retry-Sized side w ident _ v
  retry_if-Sized false side w ident v = v

  handle_event-Sized : (w : Watcher) (e : Event) → Sized w → Sized (handle_event k w e)
  unfolding handle_event
  handle_event-Sized w e v =
      if_both Sized (is_some (lookup e.ident w.descs)) _ _
        (retry_if-Sized _ writers _ e.ident (retry_if-Sized _ readers w e.ident v)) v

  pub handle_events-Sized : (w : Watcher) (es : List Event) → Sized w → Sized (handle_events k w es)
  unfolding handle_events
  handle_events-Sized w [] v = v
  handle_events-Sized w (e ∷ es) v =
      handle_events-Sized (handle_event k w e) es (handle_event-Sized w e v)

  release_found-Sized : (o : Option ℕ) (w : Watcher) → Sized w → Sized (release_found k o w)
  unfolding release_found
  release_found-Sized none w v = v
  release_found-Sized (some ident) w v = release_conn-Sized k w ident v

  release_all-Sized : (w : Watcher) (cs : List ℕ) → Sized w → Sized (release_all k w cs)
  unfolding release_all
  release_all-Sized w [] v = v
  release_all-Sized w (c ∷ cs) v =
      release_all-Sized (release_found k (lookup c w.conn_idents) w) cs
        (release_found-Sized (lookup c w.conn_idents) w v)

  pub handle_gc-Sized : (w : Watcher) → Sized w → Sized (handle_gc k w)
  unfolding handle_gc
  handle_gc-Sized w v = Sized-timed (release_all-Sized w w.gc v) (λ q. refl) refl

  time_out-Sized : (w : Watcher) (p : ℕ) → Sized w → Sized (time_out k w p)
  unfolding time_out
  time_out-Sized w p v =
      let w1 = set_err w p deadline_exceeded in
      let w2 = unqueue (cb_of w1 p).place w1 p in
      let v2 = unqueue-Sized (cb_of w1 p).place w1 p (set_err-Sized w p deadline_exceeded v) in
      deliver-Sized k _ p (
        Sized-timed v2 (λ q. forget-SameBodies (pop w2.timed).1 p q ∙ pop-SameBodies w2.timed q)
          refl)

  expire_loop-Sized : (f : ℕ) (w : Watcher) (now : ℕ) → Sized w → Sized (expire_loop k f w now)
  unfolding expire_loop
  expire_loop-Sized zero w now v = v
  expire_loop-Sized (suc f) w now v =
      let p = at w.timed 0 in
      let stale =
        expire_loop-Sized f (record w { timed = (pop w.timed).1 }) now
          (Sized-timed v (pop-SameBodies w.timed) refl) in
      let late = expire_loop-Sized f (time_out k w p) now (time_out-Sized w p v) in
      if_both Sized (is_empty w.timed.arr) _ _ v (
        if_both Sized (is_some (cb_of w p).idx) _ _
          (if_both Sized (ltb (cb_of w p).deadline now) _ _ late (Sized-timed v (λ q. refl) refl))
          stale)

  pub expire-Sized : (w : Watcher) (now : ℕ) → Sized w → Sized (expire k w now)
  unfolding expire
  expire-Sized w now v =
      expire_loop-Sized (length w.timed.arr) _ now (Sized-timed v (λ q. refl) refl)
