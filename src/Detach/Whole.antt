-- ===== src/Detach/Whole.antt =====
-- libhid-detach-device (src/libhid-detach-device.c) as a whole, when it succeeds.
use libhid.Base.{
  ℕ, suc, ◌+◌, ◌<◌, ◌≡◌, ap, ◌∙◌, sym, not, true, false, some, none, [], ◌∷◌, ◌++◌, ◌==◌, ==_iff,
  Bytes, codes, length, drop,
}
use libhid.Types.{Device}
use libhid.State.{Env, Library, and_then}
use libhid.State.Handles.{Quiet, openings, closings}
use libhid.State.Returns.{Returns, returns, bind, both, mono, deref_then, skipped}
use libhid.OpenList.{no_open_devices}
use libhid.Finding.First.{Opens, candidates, first}
use libhid.ForceClaim.{Platform}
use libhid.Preparation.Success.{Cooperates}
use libhid.Printf.{show_hex}
use libhid.Session.Invariant.{start-IsConsistent}
use libhid.Detach.Ids.{hex_digit, parse_id}
use libhid.Detach.Ids.Laws.{show_hex_lem, parse_id-show_hex}
use libhid.Detach.Leaving.{Fresh}
use libhid.Detach.Main.{detach_main-Detached}
use libhid.Detach.{detach_main, detach_matcher, init_and_leave}
use libhid.Detach.Success.{Serves, IsDone, accepted, numbers, init_and_leave_succeeds}

-- The line that the program prints when it is done.
abbrev pub done_text : ℕ → ℕ → Bytes
done_text v u =
    codes "Trying to detach HID with IDs "
    ++ show_hex 4 v
    ++ codes ":"
    ++ show_hex 4 u
    ++ codes "... "
    ++ codes "done.\n"

-- The argument of the program for two identifiers.
abbrev pub written : ℕ → ℕ → Bytes
written v u = show_hex 4 v ++ (codes ":" ++ show_hex 4 u)

written_nine : (v u : ℕ) → v < 65536 → u < 65536 → length (written v u) ≡ 9
written_nine v u h g =
    ap (λ t. length (t ++ (codes ":" ++ show_hex 4 u))) (show_hex_lem v h)
    ∙ ap (λ t. suc (suc (suc (suc (suc (length t)))))) (show_hex_lem u g)

written_second : (v u : ℕ) → v < 65536 → u < 65536 → drop 5 (written v u) ≡ show_hex 4 u ++ []
written_second v u h g =
    ap (λ t. drop 5 (t ++ (codes ":" ++ show_hex 4 u))) (show_hex_lem v h)
    ∙ show_hex_lem u g
    ∙ ap (λ t. t ++ []) (sym (show_hex_lem u g))

-- Once both identifiers are read, `main` says which, and then does the rest.
detached :
    {W P : Type 0} (env : Env W P) (s : Library W P) (v u : ℕ) (platform : Platform)
    (program : Bytes) (junk junk' : ℕ)
    → (length (written v u) == length (codes "dead:beef")) ≡ true
    → parse_id (written v u) junk ≡ some v
    → parse_id (drop 5 (written v u)) junk' ≡ some u
    → Returns (IsDone s) (init_and_leave env platform (detach_matcher v u) s)
    → Returns
        (λ r t. (r ≡ (0, done_text v u)) × Quiet s t)
        (detach_main env platform program (written v u ∷ []) junk junk' s)
unfolding and_then detach_main
detached env s v u platform program junk junk' nine read read' rest = skipped _ _ s (ap not nine) (
    deref_then _ _ s read (
      deref_then _ _ s read' (
        bind rest λ r t (e, quiet). returns (
          ap
              (λ x. (
                x.0,
                codes "Trying to detach HID with IDs "
                    ++ show_hex 4 v
                    ++ codes ":"
                    ++ show_hex 4 u
                    ++ codes "... "
                    ++ x.1,
              ))
              e,
          quiet,
        ))))

module _ {W P : Type 0} (env : Env W P) (serves : Serves env) (opens : Opens env)
    (cooperates : Cooperates env) (s : Library W P) (empty_list : s.open_list ≡ no_open_devices)
    (empty_heap : (q : ℕ) → s.interfaces q ≡ none) (off : s.initialised ≡ false)
    (fresh : Fresh env s) (v u : ℕ) (v_short : v < 65536) (u_short : u < 65536) (dirname : Bytes)
    (d : Device)
    (listed : (w : W)
      → first (accepted (numbers {W = W} v u)) (candidates (env.usb_get_busses w))
        ≡ some (dirname, d)) where
  -- From the program's start, where libusb finds, opens and closes the devices and there is memory, with
  -- blocks that are not NULL and not in use, where the devices grant each claim and answer each
  -- control transfer in full, with a HID descriptor that announces a report descriptor that fits,
  -- and where libusb always lists a device whose numbers the two identifiers accept: given the
  -- identifiers, of 16 bits each, as written with `%04x:%04x`, and no hexadecimal digits in the two
  -- bytes that `main` leaves unwritten, `main` returns the status 0, on each platform, and prints that
  -- it tries these identifiers and that it is done. The library is not initialised, every
  -- interface is as it was, and as many blocks were freed as allocated and as many handles closed as
  -- opened.
  pub detach_main_succeeds :
      (platform : Platform) (program : Bytes) (junk junk' : ℕ)
      → hex_digit junk ≡ none
      → hex_digit junk' ≡ none
      → Returns
          (λ r t.
            (r ≡ (0, done_text v u))
            × (t.initialised ≡ false)
            × ((q : ℕ) → t.interfaces q ≡ s.interfaces q)
            × (t.mallocs + s.frees ≡ s.mallocs + t.frees)
            × (openings t.calls + closings s.calls ≡ openings s.calls + closings t.calls))
          (detach_main env platform program (written v u ∷ []) junk junk' s)
  detach_main_succeeds platform program junk junk' clean clean' =
      mono
        (both
          (detach_main-Detached env s (start-IsConsistent empty_list empty_heap) fresh platform
            program junk junk' (written v u ∷ []) clean clean')
          status)
        λ r t (k, (e, quiet)).
          let (off_now, same, freed) = k.done (ap (λ x. x.0) e) in (e, off_now, same, freed, quiet)
    where
      status :
          Returns
            (λ r t. (r ≡ (0, done_text v u)) × Quiet s t)
            (detach_main env platform program (written v u ∷ []) junk junk' s)
      status =
          detached env s v u platform program junk junk'
            ((==_iff _ _).1 (written_nine v u v_short u_short))
            ((parse_id-show_hex v junk (codes ":" ++ show_hex 4 u) v_short).0 clean)
            (ap (λ t. parse_id t junk') (written_second v u v_short u_short)
              ∙ (parse_id-show_hex u junk' [] u_short).0 clean')
            (init_and_leave_succeeds env serves opens cooperates v u dirname d listed s
              (start-IsConsistent empty_list empty_heap) fresh empty_list off platform)
