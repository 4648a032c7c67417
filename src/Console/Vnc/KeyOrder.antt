-- ===== src/Console/Vnc/KeyOrder.antt =====
-- src/console/vnc.ts, methods press and releaseKeys: the key events that are sent, in their order.
use pve_agent.Base.{
  Text, ok, Buffer, ℕ, ◌≡◌, refl, sym, ap, ◌∙◌, Bool, true, false, some, List, [], ◌∷◌, ◌++◌, map,
  append-nil, append_assoc,
}
use mathlib.Core.List.{reverse, reverse_aux}
use pve_agent.Console.Rfb.Keys.{keysym, parse_key_combo}
use pve_agent.Console.Rfb.Client.{build_key_event}
use pve_agent.Console.Vnc.Session.{Session, after, is_open, send, transmit, ◌>>◌, when, modify}
use pve_agent.Console.Vnc.Input.{
  lift_key, send_key_event, send_keys, press, release_all, release_keys,
}

-- A session whose log of what is sent goes on with some messages.
abbrev pub sending : Session → List Buffer → Session
sending s messages = record s { sent = s.sent ++ messages }

send-open :
    (bytes : Buffer) (s : Session)
    → s.socket ≡ some true
    → send bytes s ≡ (ok tt, sending s (bytes ∷ []))
unfolding send transmit
send-open bytes s e = simp (e, send)

transmit-open :
    (bytes : Buffer) (s : Session)
    → s.socket ≡ some true
    → when (is_open s.socket) (transmit bytes) s ≡ (ok tt, sending s (bytes ∷ []))
unfolding transmit
transmit-open bytes s e = simp (e, transmit)

append_sent :
    (s : Session) (first rest : List Buffer)
    → sending (sending s first) rest ≡ sending s (first ++ rest)
append_sent s first rest = ap (λ l. record s { sent = l }) (append_assoc s.sent first rest)

send_keys-open :
    (down : Bool) (ns : List ℕ) (s : Session)
    → s.socket ≡ some true
    → send_keys down (map keysym ns) s ≡ (ok tt, sending s (map (build_key_event down) ns))
unfolding send_keys send_key_event
send_keys-open down [] s e = ap (λ l. (ok tt, record s { sent = l })) (sym (append-nil s.sent))
send_keys-open down (n ∷ ns) s e =
    ap (after λ _. send_keys down (map keysym ns)) (send-open (build_key_event down n) s e)
    ∙ send_keys-open down ns (sending s (build_key_event down n ∷ [])) e
    ∙ ap (λ t. (ok tt, t))
        (append_sent s (build_key_event down n ∷ []) (map (build_key_event down) ns))

map-reverse_aux :
    {A B : Type 0} (f : A → B) (xs ys : List A)
    → map f (reverse_aux xs ys) ≡ reverse_aux (map f xs) (map f ys)
map-reverse_aux f [] ys = refl
map-reverse_aux f (x ∷ xs) ys = map-reverse_aux f xs (x ∷ ys)

-- On an open socket, pressing a combination of keys sends a key-down event for each key in the order
-- written and then a key-up event for each in reverse, and changes nothing else in the session.
pub press-sends :
    (combo : Text) (ns : List ℕ) (s : Session)
    → parse_key_combo combo ≡ ok (map keysym ns)
    → s.socket ≡ some true
    → press combo s ≡ (
      ok tt,
      sending s (map (build_key_event true) ns ++ map (build_key_event false) (reverse ns)),
    )
unfolding press lift_key
press-sends combo ns s parses e =
    let downs = map (build_key_event true) ns in
    let ups = map (build_key_event false) (reverse ns) in
    ap (λ r. after (λ ks. send_keys true ks >> send_keys false (reverse ks)) (lift_key r s)) parses
    ∙ ap (after λ _. send_keys false (reverse (map keysym ns))) (send_keys-open true ns s e)
    ∙ ap (λ ks. send_keys false ks (sending s downs)) (sym (map-reverse_aux keysym ns []))
    ∙ send_keys-open false (reverse ns) (sending s downs) e
    ∙ ap (λ t. (ok tt, t)) (append_sent s downs ups)

release_all-open :
    (ns : List ℕ) (s : Session)
    → s.socket ≡ some true
    → release_all ns s ≡ (ok tt, sending s (map (build_key_event false) ns))
unfolding release_all transmit
release_all-open [] s e = ap (λ l. (ok tt, record s { sent = l })) (sym (append-nil s.sent))
release_all-open (n ∷ ns) s e =
    let up = build_key_event false n ∷ [] in
    ap (after λ _. release_all ns) (transmit-open (build_key_event false n) s e)
    ∙ release_all-open ns (sending s up) e
    ∙ ap (λ t. (ok tt, t)) (append_sent s up (map (build_key_event false) ns))

-- On an open socket, releasing the keys sends a key-up event for each key that is held, in the order
-- they went down, and after it no key is held.
pub release_keys-sends :
    (s : Session)
    → s.socket ≡ some true
    → release_keys s ≡ (
      ok tt,
      record (sending s (map (build_key_event false) s.held)) { held = []; tracked = false },
    )
unfolding release_keys
release_keys-sends s e =
    ap (after λ _. modify (λ s. record s { held = []; tracked = false }))
      (release_all-open s.held s e)
