-- ===== src/Examples/Push.antt =====
-- The push server (examples/push-server/main.go): each tick writes the time to every connection
-- that is new or has completed a write since the last tick.
use mathlib.Core.List.{append-nil}
use gaio.Common.{
  ℕ, ◌≡◌, refl, ap, sym, subst, ◌∙◌, ◌==◌, false, List, [], ◌∷◌, ◌++◌, Option, none, some,
}
use gaio.Types.{Error, Buffer, user, buffer_length, OpResult}
use gaio.System.{System, Request, write, aio_create}
use gaio.System.Places.{IsSafe}
use gaio.System.Submit.{
  asks_write, create_all, AreProper, SubmittedAll, create_all-SubmittedAll, write-aio_create,
}

-- What the main loop receives: a result, a tick whose line is named and has a length, or a
-- connection.
pub data Input : Type 0 where
  io : OpResult → Input
  tick : ℕ → ℕ → Input
  accepted : ℕ → Input

-- The main loop's `conns`, and the watcher.
pub record Push : Type 0 where
  pub system : System
  pub conns : List ℕ

-- The loop of a tick over the connections.
unfoldable pub push_all : (System → ℕ) → System → Buffer → List ℕ → System
push_all pick s buf [] = s
push_all pick s buf (c ∷ cs) = push_all pick (write (pick s) s 0 (some c) buf).0 buf cs

-- The connections that an input adds.
abbrev pub arrives : Input → List ℕ
arrives (io r) = elim r.error [ none ↦ r.conn ∷ [] | some e ↦ [] ]
arrives (tick name len) = []
arrives (accepted c) = c ∷ []

-- One case of the main loop.
unfoldable pub push_step : (System → ℕ) → Push → Input → Push
push_step pick p (io r) = elim r.error [
  | none ↦ record p { conns = p.conns ++ r.conn ∷ [] }
  | some e ↦ p
]
push_step pick p (tick name len) = record {
  system = push_all pick p.system (user name len) p.conns;
  conns = [];
}
push_step pick p (accepted c) = record p { conns = p.conns ++ c ∷ [] }

abbrev pub push_asks : Buffer → List ℕ → List (Request × ℕ)
push_asks buf [] = []
push_asks buf (c ∷ cs) = (asks_write 0 buf, c) ∷ push_asks buf cs

abbrev pub AreReal : List ℕ → Type 0
AreReal [] = Unit {0}
AreReal (c ∷ cs) = ((c == 0) ≡ false) × AreReal cs

push_asks-AreProper : (buf : Buffer) (cs : List ℕ) → AreReal cs → AreProper (push_asks buf cs)
push_asks-AreProper buf [] h = tt
push_asks-AreProper buf (c ∷ cs) (x, h) = (λ e. cc, x, push_asks-AreProper buf cs h)

push_all-create_all :
    (pick : System → ℕ) (buf : Buffer)
    → (buffer_length buf == 0) ≡ false
    → (s : System) (cs : List ℕ) → push_all pick s buf cs ≡ create_all pick s (push_asks buf cs)
unfolding push_all create_all
push_all-create_all pick buf h s [] = refl
push_all-create_all pick buf h s (c ∷ cs) =
    ap (λ (x : System × Option Error). push_all pick x.0 buf cs)
      (write-aio_create (pick s) s 0 (some c) buf h)
    ∙ push_all-create_all pick buf h (aio_create (pick s) s (asks_write 0 buf) (some c)).0 cs

-- The writes that an input asks for, given the connections collected before it.
abbrev pub asked : Input → List ℕ → List (Request × ℕ)
asked (io r) cs = []
asked (tick name len) cs = push_asks (user name len) cs
asked (accepted c) cs = []

-- The connections that are collected after an input.
abbrev pub collected : Input → List ℕ → List ℕ
collected (io r) cs = cs ++ arrives (io r)
collected (tick name len) cs = []
collected (accepted c) cs = cs ++ c ∷ []

-- The line of a tick is not empty.
abbrev pub HasLine : Input → Type 0
HasLine (io r) = Unit {0}
HasLine (tick name len) = (len == 0) ≡ false
HasLine (accepted c) = Unit {0}

module _ (pick : System → ℕ) (p : Push) (v : IsSafe p.system)
    (on : p.system.watcher.die ≡ false) where
  none-SubmittedAll : SubmittedAll p.system [] p.system
  unfolding create_all
  none-SubmittedAll = create_all-SubmittedAll pick p.system [] tt v on

  -- On an open watcher in a safe state, where the collected connections are not nil and the line of
  -- a tick is not empty: a tick of the push server submits exactly one write of the whole line for
  -- each collected connection, in order, and collects anew; a result without an error and a new
  -- connection are collected last, a result with an error is not, and none of them submits anything.
  -- The state is safe afterwards, and what was submitted before is unchanged.
  pub push_step-Pushed :
      (x : Input)
      → HasLine x
      → AreReal p.conns
      → let t = push_step pick p x in
        SubmittedAll p.system (asked x p.conns) t.system × (t.conns ≡ collected x p.conns)
  unfolding push_step
  push_step-Pushed (io r) h real = by_error r.error
    where
      by_error :
          (e : Option Error)
          → let t : Push = elim e [
            | none ↦ record p { conns = p.conns ++ r.conn ∷ [] }
            | some x ↦ p
          ] in
            SubmittedAll p.system [] t.system
            × (t.conns ≡ p.conns ++ (elim e [ none ↦ r.conn ∷ [] | some x ↦ [] ]))
      by_error none = (none-SubmittedAll, refl)
      by_error (some x) = (none-SubmittedAll, sym (append-nil p.conns))
  push_step-Pushed (tick name len) h real =
      let asks = push_asks (user name len) p.conns in
      let proper = push_asks-AreProper (user name len) p.conns real in
      (
        subst (λ t. SubmittedAll p.system asks t)
            (sym (push_all-create_all pick (user name len) h p.system p.conns))
            (create_all-SubmittedAll pick p.system asks proper v on),
        refl,
      )
  push_step-Pushed (accepted c) h real = (none-SubmittedAll, refl)
