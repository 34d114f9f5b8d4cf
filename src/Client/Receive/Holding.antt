-- ===== src/Client/Receive/Holding.antt =====
-- What the input buffer of mqtt_client.c holds and what is still to arrive.
use mathlib.Core.Path.{subst}
use esp_mqtt.Base.{
  ℕ, ◌+◌, ◌≤◌, ◌≡◌, refl, sym, ap, ◌∙◌, Bool, List, ◌∷◌, ◌++◌, length, overwrite, take, drop, arith,
  length-take, length-append, take-overwrite, length-overwrite, take-append-drop, take-length,
}
use esp_mqtt.Client.State.{Arrival, Client, taken, esp_transport_read, behind}
use esp_mqtt.Client.Receive.{goes_on, store, read_into, after_read}

-- The client holds the bytes `got` of a message, `coming` arrives next, and then `later`.
pub record Holding (c : Client) (got coming : List ℕ) (later : List Arrival) : Type 0 where
  pub count : c.in_buffer_read_len ≡ length got
  pub held : take (length got) c.in_buffer ≡ got
  pub block : length c.in_buffer ≡ c.in_buffer_length
  pub arriving : c.reads ≡ behind coming later

-- The client behind a read of `want` bytes.
abbrev pub stored : Client → ℕ → List ℕ → List Arrival → Client
stored c want coming later =
    store (record c { reads = behind (drop want coming) later }) (take want coming)

read_some :
    (b : ℕ) (bs : List ℕ) (later : List Arrival) (want : ℕ)
    → esp_transport_read (behind (b ∷ bs) later) want
      ≡ taken (take want (b ∷ bs)) (behind (drop want (b ∷ bs)) later)
unfolding esp_transport_read
read_some b bs later want = refl

pub read_into-stored :
    (c : Client) (got : List ℕ) (b : ℕ) (bs : List ℕ) (later : List Arrival) (want : ℕ) (mid : Bool)
    → Holding c got (b ∷ bs) later
    → read_into c want mid ≡ goes_on (stored c want (b ∷ bs) later)
unfolding read_into
read_into-stored c got b bs later want mid h =
    ap (λ rs. after_read c mid (esp_transport_read rs want)) h.arriving
    ∙ ap (after_read c mid) (read_some b bs later want)

pub stored-Holding :
    (c : Client) (got coming : List ℕ) (later : List Arrival) (want : ℕ)
    → Holding c got coming later
    → length got + want ≤ c.in_buffer_length
    → Holding (stored c want coming later) (got ++ take want coming) (drop want coming) later
stored-Holding c got coming later want h fits =
    let arrived = take want coming in
    let size = length-append got arrived in
    let short = length-take want coming in
    record {
      count = omega (arith, h.count, size);
      held =
          ap (λ k. take k (overwrite c.in_buffer c.in_buffer_read_len arrived)) size
          ∙ ap (λ k. take (length got + length arrived) (overwrite c.in_buffer k arrived)) h.count
          ∙ subst
              (λ v.
                take (length got + length arrived) (overwrite c.in_buffer (length got) v)
                ≡ take (length got) c.in_buffer ++ v)
              (take-length arrived)
              (take-overwrite (length got) (length arrived) c.in_buffer arrived
                (omega (arith, h.block, short, fits)) (omega arith))
          ∙ ap (λ l. l ++ arrived) h.held;
      block = length-overwrite c.in_buffer c.in_buffer_read_len arrived ∙ h.block;
      arriving = refl;
    }

-- The buffer begins with what is held.
pub held-in_buffer :
    (c : Client) (got coming : List ℕ) (later : List Arrival)
    → Holding c got coming later
    → c.in_buffer ≡ got ++ drop (length got) c.in_buffer
held-in_buffer c got coming later h =
    sym (take-append-drop (length got) c.in_buffer)
    ∙ ap (λ l. l ++ drop (length got) c.in_buffer) h.held
