-- ===== src/Presentation/Keeps.antt =====
-- The functions of src/hid_presentation.c at an open interface.
use libhid.Base.{ℕ, ◌≢◌, refl, Bool, not, Bytes, ◌==◌}
use libhid.State.{Env, and_then, load-some}
use libhid.State.Safe.{gives, run_bind, run_if, run_deref, run_known}
use libhid.Interface.Laws.{hid_is_opened_open}
use libhid.Parsing.{hid_reset_parser, restarted}
use libhid.Opening.Kept.{Keeps, Kept-trans, Kept-same, Kept-store, go_on, with_data, with_parser}
use libhid.Presentation.{string_line, hid_write_identification}
use libhid.Presentation.Tree.{walk, hid_dump_tree}

module _ {W P : Type 0} (env : Env W P) (p : ℕ) (there : p ≢ 0) where
  string-Keeps :
      (label missing : Bytes) (handle index : ℕ)
      → Keeps p (string_line env label missing handle index)
  unfolding and_then string_line
  string-Keeps label missing handle index s i object opened =
      run_if (index == 0) _ _ s (gives (Kept-same object opened s refl refl refl refl refl))
        (gives (Kept-same object opened _ refl refl refl refl refl))

  pub identification-Keeps : (out : Bool) → Keeps p (hid_write_identification env out p)
  unfolding and_then hid_write_identification
  identification-Keeps out s i object opened =
      run_known _ (hid_is_opened_open p s there object opened.handle) (
        run_if (not out) _ _ s (gives (Kept-same object opened s refl refl refl refl refl)) (
          run_known _ (load-some p s object) (
            run_deref _ i.device s λ d _. run_bind (string-Keeps _ _ _ _ s i object opened) λ _ t k.
              run_bind (go_on k (string-Keeps _ _ _ _ t k.now k.object k.opened)) λ _ u l.
                run_bind (go_on l (string-Keeps _ _ _ _ u l.now l.object l.opened))
                  λ _ v m. gives m)))

  reset-Keeps : Keeps p (hid_reset_parser env p)
  unfolding and_then hid_reset_parser
  reset-Keeps s i object opened = run_known _ (hid_is_opened_open p s there object opened.handle) (
      run_known _ (load-some p s object) (
        run_deref _ i.hid_parser s
          λ q _. gives (Kept-store object opened _ (with_parser opened (restarted env q)))))

  pub dump_tree-Keeps : (fuel : ℕ) (out : Bool) → Keeps p (hid_dump_tree env fuel out p)
  unfolding and_then hid_dump_tree
  dump_tree-Keeps fuel out s i object opened =
      run_known _ (hid_is_opened_open p s there object opened.handle) (
        run_if (not out) _ _ s (gives (Kept-same object opened s refl refl refl refl refl)) (
          run_bind (reset-Keeps s i object opened) λ _ t k. run_known _ (load-some p t k.object) (
            run_deref _ k.now.hid_parser t λ q _. run_deref _ k.now.hid_data t λ d _.
              run_deref _ (walk env fuel q d) t λ w _.
                let l = Kept-trans k (
                  Kept-store k.object k.opened _
                    (with_data (with_parser k.opened w.parser) w.hid_data)) in
                run_bind (go_on l (reset-Keeps _ l.now l.object l.opened)) λ _ v m. gives m)))
