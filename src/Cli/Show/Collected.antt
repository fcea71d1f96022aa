-- ===== src/Cli/Show/Collected.antt =====
-- src/bin/animus.rs: what the loop over the events of a stream collects and prints.
use animus_rs.Prelude.{
  ◌≡◌, refl, sym, ap, ◌∙◌, Bool, true, false, List, [], ◌∷◌, ◌++◌, append-nil, append_assoc, Text,
  Bool-cases, inl, inr, if◌then◌else◌, arith,
}
use animus_rs.Llm.Types.{StreamEvent}
use animus_rs.Llm.Stream.Conserve.{texts_sent}
use animus_rs.Llm.Stream.Thinking.{Unended, thoughts_sent}
use animus_rs.Cli.Show.{
  Output, out, error, Shown, show_thinking, show_text, show_events, nothing_shown, undim,
}

-- What reaches standard output.
abbrev pub stdout_of : List Output → Text
stdout_of [] = []
stdout_of (out s ∷ os) = s ++ stdout_of os
stdout_of (error s ∷ os) = stdout_of os

pub stdout_of-append : (xs ys : List Output) → stdout_of (xs ++ ys) ≡ stdout_of xs ++ stdout_of ys
stdout_of-append [] ys = refl
stdout_of-append (out s ∷ xs) ys = rw (stdout_of-append xs ys) (sym (append_assoc s _ _))
stdout_of-append (error s ∷ xs) ys = stdout_of-append xs ys

abbrev pub text_if : Bool → Text → Text
text_if as_text s = if as_text then s else []

-- What the loop has collected and printed behind a state, for deltas with this text and thinking.
pub record After (as_text : Bool) (s t : Shown) (text thinking : Text) : Type 0 where
  pub full_text : t.full_text ≡ s.full_text ++ text
  pub full_thinking : t.full_thinking ≡ s.full_thinking ++ thinking
  pub stdout : stdout_of t.written ≡ stdout_of s.written ++ text_if as_text text

show_thinking-After :
    (as_text : Bool) (s : Shown) (text : Text)
    → After as_text s (show_thinking as_text text s) [] text
unfolding show_thinking
show_thinking-After true s text = elim (Bool-cases s.in_thinking) [
  | inl e ↦ rw e (record {
    full_text = sym (append-nil _);
    full_thinking = refl;
    stdout = stdout_of-append s.written _;
  })
  | inr e ↦ rw e (record {
    full_text = sym (append-nil _);
    full_thinking = refl;
    stdout = simp (stdout_of-append, append-nil);
  })
]
show_thinking-After false s text = record {
  full_text = sym (append-nil _);
  full_thinking = refl;
  stdout = sym (append-nil _);
}

show_text-After :
    (as_text : Bool) (s : Shown) (text : Text) → After as_text s (show_text as_text text s) text []
unfolding show_text
show_text-After true s text = elim (Bool-cases s.in_thinking) [
  | inl e ↦ rw e (record {
    full_text = refl;
    full_thinking = sym (append-nil _);
    stdout = simp (stdout_of-append, append-nil);
  })
  | inr e ↦ rw e (record {
    full_text = refl;
    full_thinking = sym (append-nil _);
    stdout = simp (stdout_of-append, append-nil);
  })
]
show_text-After false s text = record {
  full_text = refl;
  full_thinking = sym (append-nil _);
  stdout = sym (append-nil _);
}

abbrev pub Collected : Bool → Shown → Shown → List StreamEvent → Type 0
Collected as_text s t deltas = After as_text s t (texts_sent deltas) (thoughts_sent deltas)

module _ (as_text : Bool) where
  After-After :
      (s t u : Shown) (a b x y : Text)
      → After as_text s t a x
      → After as_text t u b y
      → After as_text s u (a ++ b) (x ++ y)
  After-After s t u a b x y f g = record {
    full_text = g.full_text ∙ rw (f.full_text) (append_assoc s.full_text a b);
    full_thinking = g.full_thinking ∙ rw (f.full_thinking) (append_assoc s.full_thinking x y);
    stdout = g.stdout ∙ rw (f.stdout) (printed as_text);
  }
    where
      printed :
          (p : Bool)
          → (stdout_of s.written ++ text_if p a) ++ text_if p b
            ≡ stdout_of s.written ++ text_if p (a ++ b)
      printed true = append_assoc _ a b
      printed false = append-nil _

  -- The loop on deltas and the end behind them.
  show_events-Collected :
      (deltas : List StreamEvent) (s : Shown)
      → Unended deltas
      → Collected as_text s (show_events as_text (deltas ++ StreamEvent.done ∷ []) s) deltas
  unfolding show_events
  show_events-Collected [] s h = record {
    full_text = sym (append-nil _);
    full_thinking = sym (append-nil _);
    stdout = ground (arith, append-nil (stdout_of s.written));
  }
  show_events-Collected (StreamEvent.text_delta text ∷ deltas) s h =
      After-After s _ _ _ _ _ _ (show_text-After as_text s text)
        (show_events-Collected deltas _ h.1)
  show_events-Collected (StreamEvent.thinking_delta text ∷ deltas) s h =
      After-After s _ _ _ _ _ _ (show_thinking-After as_text s text)
        (show_events-Collected deltas _ h.1)
  show_events-Collected (StreamEvent.tool_input_delta id text ∷ deltas) s h =
      show_events-Collected deltas s h.1
  show_events-Collected (StreamEvent.tool_start id name ∷ deltas) s h =
      show_events-Collected deltas s h.1
  show_events-Collected (StreamEvent.done ∷ deltas) s h = absurd (cc)

  undim-After : (s : Shown) → After as_text s (undim s) [] []
  unfolding undim
  undim-After s = elim (Bool-cases s.in_thinking) [
    | inl e ↦ rw e (record {
      full_text = sym (append-nil _);
      full_thinking = sym (append-nil _);
      stdout = rw stdout_of-append (rw append-nil (quiet as_text));
    })
    | inr e ↦ rw e (record {
      full_text = sym (append-nil _);
      full_thinking = sym (append-nil _);
      stdout = quiet as_text;
    })
  ]
    where
      quiet : (p : Bool) {xs : Text} → xs ≡ xs ++ text_if p []
      quiet true = sym (append-nil _)
      quiet false = sym (append-nil _)

-- What the end of a stream leaves behind.
abbrev pub collected : Bool → List StreamEvent → Shown
collected as_text deltas =
    undim (show_events as_text (deltas ++ StreamEvent.done ∷ []) nothing_shown)

pub collected-Collected :
    (as_text : Bool) (deltas : List StreamEvent)
    → Unended deltas
    → Collected as_text nothing_shown (collected as_text deltas) deltas
collected-Collected as_text deltas h =
    let behind =
      After-After as_text nothing_shown _ _ _ _ _ _
        (show_events-Collected as_text deltas nothing_shown h) (undim-After as_text _) in
    record {
      full_text = behind.full_text ∙ append-nil _;
      full_thinking = behind.full_thinking ∙ append-nil _;
      stdout = behind.stdout ∙ ap (text_if as_text) (append-nil _);
    }
