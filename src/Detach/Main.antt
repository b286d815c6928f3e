-- ===== src/Detach/Main.antt =====
-- `main` of libhid-detach-device (src/libhid-detach-device.c): what it leaves behind, whatever its
-- arguments are.
use libhid.Base.{
  ℕ, zero, suc, ◌+◌, ◌*◌, ◌^◌, ◌%◌, ◌≤◌, ◌≡◌, ◌≢◌, refl, ap, ◌∙◌, sym, not, false, some, none, List,
  [], ◌∷◌, ◌++◌, inl, inr, arith, Bool-cases, Option-cases, ◌==◌, ==_iff, Bytes, codes, take, drop,
  length,
}
use libhid.State.{Env, Library, and_then}
use libhid.State.Returns.{Returns, returns, bind, deref_then, taken, skipped}
use libhid.OpenList.Refine.{contents}
use libhid.ForceClaim.{Platform}
use libhid.Session.{IsConsistent}
use libhid.Detach.Ids.{hex_digit, hex_run, id_buffer, strtol_hex, parse_id}
use libhid.Detach.Leaving.{Left, Fresh, init_and_leave-Left}
use libhid.Detach.{detach_main, detach_matcher}

-- Where the byte behind the identifier is no hexadecimal digit, reading stays inside of the array.
hex_run_stops :
    (cs : Bytes) (junk acc : ℕ)
    → hex_digit junk ≡ none
    → (n : ℕ) × (hex_run (cs ++ junk ∷ []) acc ≡ some n)
unfolding hex_run
hex_run_stops [] junk acc clean = (acc, rw (clean, hex_run))
hex_run_stops (c ∷ cs) junk acc clean = elim (Option-cases (hex_digit c)) [
  | inl stop ↦ (acc, rw (stop, hex_run))
  | inr (d, more) ↦
      let (n, e) = hex_run_stops cs junk (acc * 16 + d) clean in (n, (rw (more, hex_run)) ∙ e)
]

pub parse_id_stops :
    (chars : Bytes) (junk : ℕ) → hex_digit junk ≡ none → (n : ℕ) × (parse_id chars junk ≡ some n)
unfolding parse_id strtol_hex id_buffer
parse_id_stops chars junk clean =
    let (n, e) = hex_run_stops (take 4 chars) junk 0 clean in (n % 2 ^ 16, rw (e, parse_id))

-- What the whole program has done.
pub record Detached {W P : Type 0} (s : Library W P) (arguments : List Bytes) (r : ℕ × Bytes)
    (t : Library W P) : Type 0 where
  pub misused : r.0 ≡ 255 → t ≡ s
  pub used : r.0 ≢ 255 → (argument : Bytes) × (arguments ≡ argument ∷ []) × (length argument ≡ 9)
  pub list : contents t.open_list ≡ contents s.open_list
  pub lost : t.mallocs + s.frees ≤ suc (s.mallocs + t.frees)
  pub done :
      r.0 ≡ 0
      → (t.initialised ≡ false)
        × ((q : ℕ) → t.interfaces q ≡ s.interfaces q)
        × (t.mallocs + s.frees ≡ s.mallocs + t.frees)

module _ {W P : Type 0} {s : Library W P} where
  used_Detached :
      {r : ℕ × Bytes} (t : Library W P) (argument text : Bytes)
      → length argument ≡ 9
      → Left s r t
      → Detached s (argument ∷ []) (r.0, text) t
  used_Detached t argument text nine k = record {
    misused =
        λ h. elim k.status [ inl a ↦ absurd (n0 (sym a ∙ h)) | inr a ↦ absurd (n1 (sym a ∙ h)) ];
    used = λ _. (argument, refl, nine);
    list = k.list;
    lost = k.lost;
    done = λ h. let (_, off, same, balance) = k.done h in (off, same, balance);
  }
    where
      n0 : zero ≢ 255
      n0 h = omega arith

      n1 : suc zero ≢ 255
      n1 h = omega arith

  misused_Detached : (arguments : List Bytes) (text : Bytes) → Detached s arguments (255, text) s
  misused_Detached arguments text = record {
    misused = λ _. refl;
    used = λ h. absurd (h refl);
    list = refl;
    lost = omega arith;
    done = λ h. absurd (apart 255 refl h);
  }
    where
      apart : (n : ℕ) → n ≡ 255 → n ≢ zero
      apart n e h = omega arith

module _ {W P : Type 0} (env : Env W P) (s : Library W P) (c : IsConsistent s) (fresh : Fresh env s)
    (platform : Platform) (program : Bytes) (junk junk' : ℕ) where
  -- In a consistent state, where `malloc` gives no block that is NULL or in use, and where the bytes
  -- that `main` leaves unwritten behind its two identifiers are no hexadecimal digits, `main` returns
  -- for any arguments, and the list of open interfaces holds what it held. The status 255 means
  -- that nothing was done at all; any other that there was one argument of nine characters. With the
  -- status 0 the library is not initialised, every interface is as it was, and as many blocks were
  -- freed as allocated; otherwise at most one block is lost.
  pub detach_main-Detached :
      (arguments : List Bytes)
      → hex_digit junk ≡ none
      → hex_digit junk' ≡ none
      → Returns (Detached s arguments) (detach_main env platform program arguments junk junk' s)
  unfolding and_then detach_main
  detach_main-Detached [] clean clean' = returns (misused_Detached [] _)
  detach_main-Detached (argument ∷ []) clean clean' =
      elim (Bool-cases (length argument == length (codes "dead:beef"))) [
        | inr other ↦ taken _ _ s (ap not other) (returns (misused_Detached _ _))
        | inl nine ↦
            let (v, read) = parse_id_stops argument junk clean in
            let (u, read') = parse_id_stops (drop 5 argument) junk' clean' in
            skipped _ _ s (ap not nine) (
              deref_then _ _ s read (
                deref_then _ _ s read' (
                  bind (init_and_leave-Left env s c fresh platform (detach_matcher v u))
                    λ r t k. returns (used_Detached t argument _ ((==_iff _ _).0 nine) k))))
      ]
  detach_main-Detached (a ∷ b ∷ arguments) clean clean' = returns (misused_Detached _ _)
