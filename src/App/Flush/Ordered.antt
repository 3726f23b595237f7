-- ===== src/App/Flush/Ordered.antt =====
-- crates/octty-app/src/app_panes.rs: the keys are handed on in the order in which they were typed.
use mathlib.Core.Path.{subst}
use octty.Base.{
  ℕ, zero, suc, ℤ, if◌then◌else◌, Bool, true, false, Bool-cases, not, inl, inr, Option, none, some,
  Text, List, [], ◌∷◌, ◌++◌, map, ◌≡◌, refl, sym, ap, ◌∙◌, append_assoc, append-nil,
}
use octty.Core.Types.{WorkspaceSnapshot, WorkspaceSummary}
use octty.Term.Keyboard.{LiveTerminalKeyInput}
use octty.App.Flush.{
  PendingTerminalInput, FlushTask, waiting, flushing, App, Target, target, with_active_pane,
  schedule_terminal_flush, queued, is_live, sent_to, send_input_to_active_terminal,
  apply_terminal_flush_snapshots, applied, answered, step_task, step_at,
}

-- What can happen, in any order: a key is typed, or a task goes on, for which the flush has brought
-- snapshots or failed; or the shown workspace, its panes and the live terminals change.
pub data Event (F : Type 0) : Type 0 where
  types : LiveTerminalKeyInput → ℤ → Event F
  task_step : ℕ → Option (List (WorkspaceSnapshot F)) → (ℕ → ℤ) → Event F
  shows : Option WorkspaceSummary → Option (WorkspaceSnapshot F) → List Text → Event F

module _ {F : Type 0} where
  abbrev pub apply : Event F → App F → App F
  apply (types input now) a = send_input_to_active_terminal input now a
  apply (task_step i result clock) a = step_at i result clock a
  apply (shows workspace snapshot live) a = record a {
    active_workspace = workspace;
    active_snapshot = snapshot;
    live_terminals = live;
  }

  abbrev pub run : List (Event F) → App F → App F
  run [] a = a
  run (e ∷ es) a = run es (apply e a)

  -- A terminal is active, and it is not a live one.
  abbrev pub waits : App F → Option (Target F) → Bool
  waits a none = false
  waits a (some t) = not (is_live t a)

  abbrev pub key_typed : Event F → App F → List LiveTerminalKeyInput
  key_typed (types input now) a = if waits a (target a) then input ∷ [] else []
  key_typed (task_step i result clock) a = []
  key_typed (shows workspace snapshot live) a = []

  -- The keys that are typed for a terminal that is not live.
  abbrev pub typed : List (Event F) → App F → List LiveTerminalKeyInput
  typed [] a = []
  typed (e ∷ es) a = key_typed e a ++ typed es (apply e a)

  abbrev pub inputs : List (PendingTerminalInput F) → List LiveTerminalKeyInput
  inputs ps = map (λ p. p.input) ps

  -- There is a task exactly if one is marked active, and one at most; without it, nothing waits. What
  -- was handed on and then what waits are the keys.
  pub data IsFlushed (keys : List LiveTerminalKeyInput) : App F → Type 0 where
    resting :
        (workspace : Option WorkspaceSummary) (snapshot : Option (WorkspaceSnapshot F))
        (live : List Text) (handed : List (PendingTerminalInput F))
        → inputs handed ≡ keys
        → IsFlushed keys (record {
          active_workspace = workspace;
          active_snapshot = snapshot;
          live_terminals = live;
          pending_terminal_inputs = [];
          terminal_flush_active = false;
          tasks = [];
          handed = handed;
        })
    busy :
        (workspace : Option WorkspaceSummary) (snapshot : Option (WorkspaceSnapshot F))
        (live : List Text) (pending handed : List (PendingTerminalInput F)) (t : FlushTask F)
        → inputs (handed ++ pending) ≡ keys
        → IsFlushed keys (record {
          active_workspace = workspace;
          active_snapshot = snapshot;
          live_terminals = live;
          pending_terminal_inputs = pending;
          terminal_flush_active = true;
          tasks = t ∷ [];
          handed = handed;
        })

  inputs-append :
      (ps : List (PendingTerminalInput F)) (p : PendingTerminalInput F)
      → inputs (ps ++ (p ∷ [])) ≡ inputs ps ++ (p.input ∷ [])
  inputs-append [] p = refl
  inputs-append (q ∷ ps) p = ap (λ ks. q.input ∷ ks) (inputs-append ps p)

  one_more :
      (handed pending : List (PendingTerminalInput F)) (p : PendingTerminalInput F)
      {keys : List LiveTerminalKeyInput}
      → inputs (handed ++ pending) ≡ keys
      → inputs (handed ++ (pending ++ (p ∷ []))) ≡ keys ++ (p.input ∷ [])
  one_more handed pending p h =
      ap inputs (sym (append_assoc handed pending (p ∷ [])))
      ∙ inputs-append (handed ++ pending) p
      ∙ ap (λ ks. ks ++ (p.input ∷ [])) h

  queued-IsFlushed :
      (input : LiveTerminalKeyInput) (now : ℤ) (t : Target F) {keys : List LiveTerminalKeyInput}
      (a : App F)
      → IsFlushed keys a
      → IsFlushed (keys ++ (input ∷ [])) (queued input now t a)
  unfolding schedule_terminal_flush
  queued-IsFlushed input now t _ (resting workspace snapshot live handed h) =
      busy workspace _ live _ handed waiting
        (one_more handed [] _ (ap inputs (append-nil handed) ∙ h))
  queued-IsFlushed input now t _ (busy workspace snapshot live pending handed task h) =
      busy workspace _ live _ handed task (one_more handed pending _ h)

  shown-IsFlushed :
      (w : Option WorkspaceSummary) (s : Option (WorkspaceSnapshot F)) (l : List Text)
      {keys : List LiveTerminalKeyInput} (a : App F)
      → IsFlushed keys a
      → IsFlushed keys (record a { active_workspace = w; active_snapshot = s; live_terminals = l })
  shown-IsFlushed w s l _ (resting workspace snapshot live handed h) = resting w s l handed h
  shown-IsFlushed w s l _ (busy workspace snapshot live pending handed task h) =
      busy w s l pending handed task h

  sent_to-IsFlushed :
      (input : LiveTerminalKeyInput) (now : ℤ) (keys : List LiveTerminalKeyInput) (a : App F)
      (t : Option (Target F))
      → IsFlushed keys a
      → IsFlushed (keys ++ (if waits a t then input ∷ [] else [])) (sent_to input now a t)
  sent_to-IsFlushed input now keys a none h = subst (λ ks. IsFlushed ks a) (sym (append-nil keys)) h
  sent_to-IsFlushed input now keys a (some t) h = elim (Bool-cases (is_live t a)) [
    | inl e ↦ rw e (
        subst (λ ks. IsFlushed ks (record a { active_snapshot = some (with_active_pane t) }))
          (sym (append-nil keys))
          (shown-IsFlushed a.active_workspace (some (with_active_pane t)) a.live_terminals a h))
    | inr e ↦ rw e (queued-IsFlushed input now t a h)
  ]

  answered-busy :
      (workspace : Option WorkspaceSummary) (snapshot : Option (WorkspaceSnapshot F))
      (live : List Text) (pending handed sent : List (PendingTerminalInput F))
      (result : Option (List (WorkspaceSnapshot F))) (clock : ℕ → ℤ)
      {keys : List LiveTerminalKeyInput}
      → inputs (handed ++ pending) ≡ keys
      → IsFlushed keys (
          step_at 0 result clock (record {
            active_workspace = workspace;
            active_snapshot = snapshot;
            live_terminals = live;
            pending_terminal_inputs = pending;
            terminal_flush_active = true;
            tasks = flushing sent ∷ [];
            handed = handed;
          }))
  unfolding step_at step_task apply_terminal_flush_snapshots
  answered-busy workspace snapshot live pending handed sent none clock h =
      busy workspace snapshot live pending handed waiting h
  answered-busy workspace none live pending handed sent (some snapshots) clock h =
      busy workspace none live pending handed waiting h
  answered-busy workspace (some active) live pending handed sent (some snapshots) clock h =
      busy workspace _ live pending handed waiting h

  step-IsFlushed :
      (i : ℕ) (result : Option (List (WorkspaceSnapshot F))) (clock : ℕ → ℤ)
      {keys : List LiveTerminalKeyInput} (a : App F)
      → IsFlushed keys a
      → IsFlushed keys (step_at i result clock a)
  unfolding step_at step_task
  step-IsFlushed i result clock _ (resting workspace snapshot live handed h) =
      resting workspace snapshot live handed h
  step-IsFlushed zero result clock _ (busy workspace snapshot live [] handed waiting h) =
      resting workspace snapshot live handed (ap inputs (sym (append-nil handed)) ∙ h)
  step-IsFlushed zero result clock _ (busy workspace snapshot live (p ∷ ps) handed waiting h) =
      busy workspace snapshot live [] (handed ++ (p ∷ ps)) (flushing (p ∷ ps))
        (ap inputs (append-nil (handed ++ (p ∷ ps))) ∙ h)
  step-IsFlushed zero result clock _
        (busy workspace snapshot live pending handed (flushing sent) h) =
      answered-busy workspace snapshot live pending handed sent result clock h
  step-IsFlushed (suc i) result clock _ (busy workspace snapshot live pending handed t h) =
      busy workspace snapshot live pending handed t h

  apply-IsFlushed :
      (e : Event F) (keys : List LiveTerminalKeyInput) (a : App F)
      → IsFlushed keys a
      → IsFlushed (keys ++ key_typed e a) (apply e a)
  unfolding send_input_to_active_terminal
  apply-IsFlushed (types input now) keys a h = sent_to-IsFlushed input now keys a (target a) h
  apply-IsFlushed (task_step i result clock) keys a h =
      subst (λ ks. IsFlushed ks (step_at i result clock a)) (sym (append-nil keys))
        (step-IsFlushed i result clock a h)
  apply-IsFlushed (shows w s l) keys a h =
      subst (λ ks. IsFlushed ks (apply (shows w s l) a)) (sym (append-nil keys))
        (shown-IsFlushed w s l a h)

  run_from :
      (es : List (Event F)) (keys : List LiveTerminalKeyInput) (a : App F)
      → IsFlushed keys a
      → IsFlushed (keys ++ typed es a) (run es a)
  run_from [] keys a h = subst (λ ks. IsFlushed ks a) (sym (append-nil keys)) h
  run_from (e ∷ es) keys a h =
      subst (λ ks. IsFlushed ks (run (e ∷ es) a))
        (append_assoc keys (key_typed e a) (typed es (apply e a)))
        (run_from es (keys ++ key_typed e a) (apply e a) (apply-IsFlushed e keys a h))

  -- Nothing is typed yet.
  abbrev pub idle : App F
  idle = record {
    active_workspace = none;
    active_snapshot = none;
    live_terminals = [];
    pending_terminal_inputs = [];
    terminal_flush_active = false;
    tasks = [];
    handed = [];
  }

  applied-handed :
      (clock : ℕ → ℤ) (snapshots : List (WorkspaceSnapshot F)) (a : App F)
      (shown : Option (WorkspaceSnapshot F))
      → (applied clock snapshots a shown).handed ≡ a.handed
  applied-handed clock snapshots a none = refl
  applied-handed clock snapshots a (some active) = refl

  answered-handed :
      (result : Option (List (WorkspaceSnapshot F))) (clock : ℕ → ℤ) (a : App F)
      → (answered result clock a).handed ≡ a.handed
  unfolding apply_terminal_flush_snapshots
  answered-handed none clock a = refl
  answered-handed (some snapshots) clock a = applied-handed clock snapshots a a.active_snapshot

  waiting_on :
      (r : Option (List (WorkspaceSnapshot F))) (c : ℕ → ℤ) {keys : List LiveTerminalKeyInput}
      (a : App F)
      → a.tasks ≡ waiting ∷ []
      → IsFlushed keys a
      → inputs (step_at 0 r c a).handed ≡ keys
  unfolding step_at step_task
  waiting_on r c _ e (resting workspace snapshot live handed h) = h
  waiting_on r c _ e (busy workspace snapshot live [] handed waiting h) =
      ap inputs (sym (append-nil handed)) ∙ h
  waiting_on r c _ e (busy workspace snapshot live (p ∷ ps) handed waiting h) = h
  waiting_on r c _ e (busy workspace snapshot live pending handed (flushing sent) h) =
      absurd (cc (e))

  handed_on :
      (keys : List LiveTerminalKeyInput) (a : App F) (r r' : Option (List (WorkspaceSnapshot F)))
      (c c' : ℕ → ℤ)
      → IsFlushed keys a
      → inputs (step_at 0 r' c' (step_at 0 r c a)).handed ≡ keys
  unfolding step_at step_task
  handed_on keys _ r r' c c' (resting workspace snapshot live handed h) = h
  handed_on keys _ r r' c c' (busy workspace snapshot live [] handed waiting h) =
      ap inputs (sym (append-nil handed)) ∙ h
  handed_on keys _ r r' c c' (busy workspace snapshot live (p ∷ ps) handed waiting h) =
      ap inputs (answered-handed r' c' _) ∙ h
  handed_on keys _ r r' c c' (busy workspace snapshot live pending handed (flushing sent) h) =
      waiting_on r' c' _ refl (answered-busy workspace snapshot live pending handed sent r c h)

  -- Keys are typed, the task goes on, flushes bring snapshots or fail, and what is shown changes, in
  -- any order. Each key for a terminal that is not live is handed on once and in the order of typing:
  -- what was handed to the flush, and then what waits, are the keys that were typed. There is one task
  -- at most, and one while a key waits; when it has gone on twice, all keys are handed on that were
  -- typed before.
  pub run-IsFlushed :
      (es : List (Event F)) (r r' : Option (List (WorkspaceSnapshot F))) (c c' : ℕ → ℤ)
      → IsFlushed (typed es idle) (run es idle)
        × (inputs (step_at 0 r' c' (step_at 0 r c (run es idle))).handed ≡ typed es idle)
  run-IsFlushed es r r' c c' =
      let h = run_from es [] idle (resting none none [] [] refl) in
      (h, handed_on (typed es idle) (run es idle) r r' c c' h)
