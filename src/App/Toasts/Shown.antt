-- ===== src/App/Toasts/Shown.antt =====
-- crates/octty-app/src/app_core.rs: notices over any sequence of errors and of timers.
use octty.Base.{
  ℕ, ◌≤◌, ltb, ◌==◌, Bool, not, Bool-cases, inl, inr, ◌⊎◌, Text, List, [], ◌∷◌, ◌++◌, length, keep,
  All, All-mono, All-append, ◌≡◌, ◌≢◌, refl, sym, arith,
}
use mathlib.Core.Path.{subst}
use octty.App.Toasts.{AppToast, App, pop_front, show_error, dismiss_toast}

-- What `OcttyApp::new` sets.
abbrev pub start : App
start = record { status = []; next_toast_id = 1; toasts = []; timers = [] }

-- An error, or the end of the timer between two others. The timers end in any order.
pub data Step : App → App → Type 0 where
  fails : (app : App) (message : Text) → Step app (show_error message app)
  ends :
      (app : App) (before : List ℕ) (id : ℕ) (after : List ℕ)
      → app.timers ≡ before ++ (id ∷ after)
      → Step app (dismiss_toast id (record app { timers = before ++ after }))

pub data Reach (from : App) : App → Type 0 where
  here : Reach from from
  next : {app app' : App} → Reach from app → Step app app' → Reach from app'

abbrev pub Has : ℕ → List ℕ → Type 0
Has n [] = ⊥
Has n (m ∷ ms) = (m ≡ n) ⊎ Has n ms

-- At most four notices, and a timer runs for each.
pub record IsTimed (app : App) : Type 0 where
  pub few : length app.toasts ≤ 4
  pub timed : All (λ toast. Has toast.id app.timers) app.toasts

Has-append_left : (n : ℕ) (xs ys : List ℕ) → Has n xs → Has n (xs ++ ys)
Has-append_left n (x ∷ xs) ys (inl e) = inl e
Has-append_left n (x ∷ xs) ys (inr h) = inr (Has-append_left n xs ys h)
Has-append_left n [] ys h = elim h [ ]

Has-append_last : (n : ℕ) (xs : List ℕ) → Has n (xs ++ (n ∷ []))
Has-append_last n [] = inl refl
Has-append_last n (x ∷ xs) = inr (Has-append_last n xs)

-- A timer that is not the one that ends is still there.
Has-rest :
    (n id : ℕ) (before after : List ℕ)
    → id ≢ n
    → Has n (before ++ (id ∷ after))
    → Has n (before ++ after)
Has-rest n id [] after other (inl e) = absurd (other e)
Has-rest n id [] after other (inr h) = h
Has-rest n id (b ∷ before) after other (inl e) = inl e
Has-rest n id (b ∷ before) after other (inr h) = inr (Has-rest n id before after other h)

length-pop_front :
    (ts : List AppToast) → (length (pop_front ts) ≤ 4) × (length (pop_front ts) ≤ length ts)
unfolding pop_front
length-pop_front [] = (omega arith, omega arith)
length-pop_front (t ∷ ts) = ground (arith, length-pop_front ts)

All-pop_front : (P : AppToast → Type 0) (ts : List AppToast) → All P ts → All P (pop_front ts)
unfolding pop_front
All-pop_front P [] a = tt
All-pop_front P (t ∷ ts) a = elim (Bool-cases (ltb 4 (length (t ∷ ts)))) [
  | inl e ↦ rw e (All-pop_front P ts a.1)
  | inr e ↦ rw e a
]

show_error-IsTimed : (message : Text) (app : App) → IsTimed app → IsTimed (show_error message app)
unfolding show_error
show_error-IsTimed message app h = record {
  few =
      (length-pop_front
        (app.toasts ++ (record { id = app.next_toast_id; message = message } ∷ []))).0;
  timed =
      let P : AppToast → Type 0 = λ toast. Has toast.id (app.timers ++ (app.next_toast_id ∷ [])) in
      All-pop_front P (app.toasts ++ (record { id = app.next_toast_id; message = message } ∷ [])) (
        All-append P app.toasts (record { id = app.next_toast_id; message = message } ∷ [])
          (All-mono app.toasts
            (λ toast. Has-append_left toast.id app.timers (app.next_toast_id ∷ [])) h.timed)
          (Has-append_last app.next_toast_id app.timers, tt));
}

length-keep : (p : AppToast → Bool) (ts : List AppToast) → length (keep p ts) ≤ length ts
length-keep p [] = omega arith
length-keep p (t ∷ ts) = ground (arith, length-keep p ts)

keep-Has :
    (id : ℕ) (before after : List ℕ) (ts : List AppToast)
    → All (λ toast. Has toast.id (before ++ (id ∷ after))) ts
    → All (λ toast. Has toast.id (before ++ after)) (keep (λ toast. not (toast.id == id)) ts)
keep-Has id before after [] a = tt
keep-Has id before after (t ∷ ts) a = elim (Bool-cases (t.id == id)) [
  | inl e ↦ rw e (keep-Has id before after ts a.1)
  | inr e ↦
      rw e
        (Has-rest t.id id before after (λ same. ground arith) a.0, keep-Has id before after ts a.1)
]

Step-IsTimed : {app app' : App} → Step app app' → IsTimed app → IsTimed app'
unfolding dismiss_toast
Step-IsTimed (fails app message) h = show_error-IsTimed message app h
Step-IsTimed (ends app before id after e) h = record {
  few = omega (arith, h.few, length-keep (λ toast. not (toast.id == id)) app.toasts);
  timed =
      keep-Has id before after app.toasts (All-mono app.toasts (λ toast t. rw (sym e) t) h.timed);
}

none_left :
    (app : App) (ts : List AppToast)
    → All (λ toast. Has toast.id app.timers) ts
    → app.timers ≡ []
    → ts ≡ []
none_left app [] a e = refl
none_left app (t ∷ ts) a e = elim (subst (Has t.id) e a.0) [ ]

reached-IsTimed : {app : App} → Reach start app → IsTimed app
reached-IsTimed here = record { few = omega arith; timed = tt }
reached-IsTimed (next r s) = Step-IsTimed s (reached-IsTimed r)

-- Whatever errors come and in whatever order the timers end, there are four notices at most, and a
-- timer still runs for each of them: no notice stays for ever, even if a number for notices is used a
-- second time. When the last timer has ended there is none.
pub Reach-IsTimed :
    {app : App} → Reach start app → IsTimed app × (app.timers ≡ [] → app.toasts ≡ [])
Reach-IsTimed {app} r = (reached-IsTimed r, none_left app app.toasts (reached-IsTimed r).timed)
