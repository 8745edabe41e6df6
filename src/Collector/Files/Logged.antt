-- ===== src/Collector/Files/Logged.antt =====
-- What writing one log of a container leaves: `writeLog` of tools/log-collector/log_collector.go.
use tvk_plugins.Prelude.{
  String, Bool, true, false, List, [], ◌∷◌, ◌++◌, ◌≡◌, refl, sym, ap, ◌∙◌, ◌⊎◌, inl, inr,
}
use tvk_plugins.Kube.Calls.{Error, Result, ok, err, ok-path}
use tvk_plugins.Action.Triple.{Triple, After, Triple-return, Triple-bind}
use tvk_plugins.Collector.Calls.{Call}
use tvk_plugins.Collector.Cluster.{LogReply, refused_stream, streamed, ContainerStat, Cluster}
use tvk_plugins.Collector.Exec.{State, Exec, pure, lift, ask, ◌>>=◌}
use tvk_plugins.Collector.Files.{log_path, write_log}

abbrev pub Anything : State → Type 0
Anything s = Unit

module _ {A : Type 0} where
  exact :
      (pre : State → Type 0) (c : Call) (reply : List Call → Result A) (s : State) (r : Result A)
      → reply s.calls ≡ r
      → pre s
      → After r
          (record s { calls = c ∷ s.calls })
          (λ a t. (b : State) × pre b × (t.calls ≡ c ∷ b.calls) × (reply b.calls ≡ ok a))
          Anything
  exact pre c reply s (ok a) e h = (s, h, refl, e)
  exact pre c reply s (err x) e h = tt

  -- A call, with the state before it.
  Triple-exact :
      {pre : State → Type 0} (c : Call) (reply : List Call → Result A)
      → Triple pre
          (ask c reply)
          (λ a t. (b : State) × pre b × (t.calls ≡ c ∷ b.calls) × (reply b.calls ≡ ok a))
          Anything
  unfolding ask
  Triple-exact {pre} c reply = record { at = λ s h. exact pre c reply s (reply s.calls) refl h }

module _ {A B : Type 0} where
  Triple-lift :
      {pre : State → Type 0} {post : B → State → Type 0} (r : Result A) (k : A → Exec B)
      → ((a : A) → r ≡ ok a → Triple pre (k a) post Anything)
      → Triple pre (lift r >>= k) post Anything
  unfolding lift ◌>>=◌
  Triple-lift (ok a) k t = record { at = (t a refl).at }
  Triple-lift (err e) k t = record { at = λ s h. tt }

module _ (p : Cluster) (dir ns name : String) where
  -- The log was asked for and refused, or read whole and written whole to its file.
  abbrev pub Logged : String → Bool → List Call → Type 0
  Logged container previous calls =
      ((later earlier : List Call) × (e : Error) × (calls
          ≡ later ++ (Call.stream_logs ns name container previous ∷ earlier))
        × (p.stream_logs earlier ns name container previous ≡ refused_stream e))
      ⊎ ((later earlier : List Call) × (text : String) × (w : String) × (calls
            ≡ later
              ++ (Call.write (log_path dir name container previous) text
                  ∷ Call.create (log_path dir name container previous)
                  ∷ Call.stream_logs ns name container previous
                  ∷ earlier))
          × (p.stream_logs earlier ns name container previous ≡ streamed (ok text))
          × (p.write
                (Call.create (log_path dir name container previous)
                  ∷ Call.stream_logs ns name container previous
                  ∷ earlier)
                (log_path dir name container previous) text
              ≡ ok w))

  pub Logged-later :
      (container : String) (previous : Bool) (c : Call) (calls : List Call)
      → Logged container previous calls
      → Logged container previous (c ∷ calls)
  Logged-later container previous c calls (inl (later, earlier, e, same, reply)) =
      inl (c ∷ later, earlier, e, ap (λ x. c ∷ x) same, reply)
  Logged-later container previous c calls (inr (later, earlier, text, w, same, reply, done)) =
      inr (c ∷ later, earlier, text, w, ap (λ x. c ∷ x) same, reply, done)

  module _ (container : String) (previous : Bool) where
    abbrev asked_and_created : List Call → List Call
    asked_and_created earlier =
        Call.create (log_path dir name container previous)
        ∷ Call.stream_logs ns name container previous
        ∷ earlier

    written_whole :
        (earlier : List Call) (text : Result String) (buf path written : String) (s : State)
        → p.stream_logs earlier ns name container previous ≡ streamed text
        → text ≡ ok buf
        → (b : State) × ((a : State) × (a.calls
              ≡ Call.stream_logs ns name container previous ∷ earlier)
            × (b.calls ≡ Call.create (log_path dir name container previous) ∷ a.calls)
            × (p.create a.calls (log_path dir name container previous) ≡ ok path))
          × (s.calls ≡ Call.write (log_path dir name container previous) buf ∷ b.calls)
          × (p.write b.calls (log_path dir name container previous) buf ≡ ok written)
        → Logged container previous s.calls
    written_whole earlier text buf path written s r read
          (b, (a, asked, made, opened), wrote, done) =
        let before : b.calls ≡ asked_and_created earlier =
          made ∙ ap (λ x. Call.create (log_path dir name container previous) ∷ x) asked in
        inr (
          [],
          earlier,
          buf,
          written,
          wrote ∙ ap (λ x. Call.write (log_path dir name container previous) buf ∷ x) before,
          r ∙ ap streamed read,
          sym (ap (λ x. p.write x (log_path dir name container previous) buf) before) ∙ done,
        )

    replied-Logged :
        (earlier : List Call) (reply : LogReply)
        → p.stream_logs earlier ns name container previous ≡ reply
        → Triple
            (λ s. s.calls ≡ Call.stream_logs ns name container previous ∷ earlier)
            (elim reply [
              | refused_stream e ↦ pure tt
              | streamed text ↦ (do
                buf ← lift text
                let path = log_path dir name container previous
                created ← ask (Call.create path) (λ h. p.create h path)
                written ← ask (Call.write path buf) (λ h. p.write h path buf)
                pure tt)
            ])
            (λ w s. Logged container previous s.calls)
            Anything
    replied-Logged earlier (refused_stream e) r =
        Triple-return tt (λ s same. inl ([], earlier, e, same, r))
    replied-Logged earlier (streamed text) r = Triple-lift text _ (λ buf read.
        Triple-bind _ _ (Triple-exact (Call.create (log_path dir name container previous)) _)
          (λ created.
            Triple-bind _ _ (Triple-exact (Call.write (log_path dir name container previous) buf) _)
              (λ written.
                Triple-return tt
                  (λ s h. written_whole earlier text buf created written s r read h))))

    pub write_log-Logged :
        Triple Anything
          (write_log p dir ns name container previous)
          (λ w s. Logged container previous s.calls)
          Anything
    unfolding write_log
    write_log-Logged =
        Triple-bind _ _ (Triple-exact (Call.stream_logs ns name container previous) _)
          (λ reply. record { at = λ s h. (replied-Logged h.0.calls reply (ok-path h.3)).at s h.2 })

  -- What was asked for of one container.
  abbrev pub AllLogged : String → ContainerStat → List Call → Type 0
  AllLogged container stat calls =
      (stat.curr ≡ true → Logged container false calls)
      × (stat.prev ≡ true → Logged container true calls)
