-- ===== src/Client/Thread/Changes.antt =====
-- How `client_thread` of src/client.c tells the main thread of channel information.
use sdrproxy.Prelude.{eq→==, ◌≡◌, refl, true, false}
use sdrproxy.Util.{ChannelInfo}
use sdrproxy.Client.{ClientData}
use sdrproxy.Client.Thread.{ClientThread, differs, notify}

same-info : (i : ChannelInfo) → differs i i ≡ false
same-info i = rw (eq→== i.sps i.sps refl, eq→== i.num_channels i.num_channels refl) refl

-- The main thread has dealt with the change.
abbrev pub dealt_with : ClientThread → ClientThread
dealt_with t = record t { chanchange = false }

module _ (t : ClientThread) (d d' d'' : ClientData) where
  abbrev pub first : ClientThread
  first = dealt_with (notify d t)

  abbrev pub second : ClientThread
  second = dealt_with (notify d' first)

  -- Channel information that differs from what the thread has told and from what it told before is
  -- told twice if it is received twice, and CHANCHANGE is set again, but not a third time.
  pub notify_again :
      differs t.old_chan_info d.new_channel_info ≡ true
      → differs t.chan_info d.new_channel_info ≡ true
      → d'.new_channel_info ≡ d.new_channel_info
      → d''.new_channel_info ≡ d.new_channel_info
      → ((notify d t).chanchange ≡ true)
        × ((notify d t).chan_info ≡ d.new_channel_info)
        × ((notify d' first).chanchange ≡ true)
        × ((notify d' first).chan_info ≡ d.new_channel_info)
        × ((notify d'' second).chanchange ≡ false)
        × ((notify d'' second).chan_info ≡ d.new_channel_info)
  unfolding notify
  notify_again new other same same' =
      let info = d.new_channel_info in
      rw (new, same, same', notify)
        (rw (other, same-info info) (refl, refl, refl, refl, refl, refl))
