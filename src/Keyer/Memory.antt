-- ===== src/Keyer/Memory.antt =====
-- src/keyer/keyer.cpp: the memory slots, recording and playing.
use cwsd.Shared.{
  ℕ, zero, suc, ◌+◌, ◌-◌, ◌*◌, true, false, List, [], ◌∷◌, get_or, set, ltb, ◌==◌, if◌then◌else◌,
  add_u16,
}
use cwsd.Keyer.Floats.{Floats}
use cwsd.Keyer.Machine.{Keyer, call, char_sent, play_stopped, record_started, record_stopped}

abbrev pub memory_slots : ℕ
memory_slots = 4

abbrev pub memory_slot_size : ℕ
memory_slot_size = 256

-- Where `memory[slot][index]` stands in the array.
abbrev pub cell : ℕ → ℕ → ℕ
cell slot index = slot * memory_slot_size + index

-- The loop of `set_memory` from index `i` on, with room for `n` more bytes: it ends at the zero
-- byte of `content`, and writes none.
unfoldable pub copy_to_slot : ℕ → ℕ → ℕ → List ℕ → List ℕ → List ℕ
copy_to_slot zero slot i content memory = memory
copy_to_slot (suc n) slot i [] memory = memory
copy_to_slot (suc n) slot i (c ∷ cs) memory =
    if c == 0 then memory else copy_to_slot n slot (suc i) cs (set memory (cell slot i) c)

module _ {F : Floats} where
  -- `stop_recording`: ends the text, and takes a space off its end. With an index of 0 the code
  -- looks at the byte before the slot.
  unfoldable pub stop_recording : Keyer F → Keyer F
  unfolding call
  stop_recording k =
      let at = cell k.recording_slot k.recording_index in
      let ended = set k.memory at 0 in
      let trimmed = if get_or ended (at - 1) 0 == b' ' then set ended (at - 1) 0 else ended in
      call record_stopped (record k { memory = trimmed; is_recording = false })

  -- `add_char_to_recording_memory`
  unfoldable pub add_char_to_recording_memory : ℕ → Keyer F → Keyer F
  unfolding stop_recording
  add_char_to_recording_memory c k =
      let k' = record k {
        memory = set k.memory (cell k.recording_slot k.recording_index) c;
        recording_index = add_u16 k.recording_index 1;
      } in
      if ltb k'.recording_index memory_slot_size then k' else stop_recording k'

  unfoldable pub start_recording : ℕ → Keyer F → Keyer F
  unfolding call
  start_recording slot k =
      call (record_started slot)
        (record k { is_recording = true; recording_slot = slot; recording_index = 0 })

  unfoldable pub stop_playing : Keyer F → Keyer F
  unfolding call
  stop_playing k = call play_stopped (record k { is_playing = false })

  -- `hardware->on_char_sent(c)`, with the recording of it
  unfoldable pub sent_char : ℕ → Keyer F → Keyer F
  unfolding call
  sent_char c k =
      let k' = call (char_sent c) k in
      if k'.is_recording then add_char_to_recording_memory c k' else k'

  unfoldable pub set_memory : ℕ → List ℕ → Keyer F → Keyer F
  unfolding copy_to_slot
  set_memory slot content k =
      if ltb slot memory_slots
      then record k { memory = copy_to_slot (memory_slot_size - 1) slot 0 content k.memory }
      else k
