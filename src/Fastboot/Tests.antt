-- ===== src/Fastboot/Tests.antt =====
-- Concrete sessions of src/fastboot.c, and its theorems applied to them.
use tboot.Base.{
  ℕ, ◌≤◌, ◌<◌, ◌%◌, ◌≡◌, refl, true, false, Option, some, List, [], ◌∷◌, ◌++◌, arith, Text, codes,
  length, drop,
}
use tboot.Base.Number.{strtoul, hex_pad}
use tboot.Fastboot.{command, complete, Session}
use tboot.Fastboot.Usb.{usb_read, usb_read_loop, usb_write}
use tboot.Fastboot.Ack.Delivery.{payload, AllPackets}
use tboot.Fastboot.Reply.{
  info, fail, okay, reply, reply_all, final_once, fastboot_okay, fastboot_okay-delivers,
}
use tboot.Fastboot.Progress.{first_slice, usb_read_progress, Completes, usb_read_progress-Completes}
use tboot.Fastboot.Handshake.{
  data_packet, response_data, response_data-announces, streaming_download,
}
use tboot.Fastboot.Download.{PulledFile, file_packet, pull_file}
use tboot.Fastboot.Download.Outcome.{DownloadOutcome, cmd_download-outcome}
use tboot.Fastboot.Download.Pull.{Pulled, pull_file-Pulled}

-- A host that accepts every packet whole, in four writes, and has sent five bytes.
abbrev session : Session
session = record {
  state = command;
  reads = some (codes "hello") ∷ [];
  writes = some 64 ∷ some 64 ∷ some 64 ∷ some 64 ∷ [];
  sent = [];
  download_base = [];
  download_max = 8192;
  download_size = 0;
  varlist = (codes "version", codes "0.5") ∷ [];
  ui = [];
  fault = false;
}

-- A device node whose first write fails, and one that has failed already.
fastboot_okay-delivers_example :
    (packets : List Text) × (writes : List (Option ℕ)) × (fastboot_okay (codes "hi") session
      ≡ record session { state = complete; writes = writes; sent = session.sent ++ packets })
    × (payload packets ≡ codes "hi")
    × AllPackets (codes "OKAY") packets
fastboot_okay-delivers_example =
    fastboot_okay-delivers (codes "hi") session refl
      (omega arith, (omega arith, (omega arith, (omega arith, tt)))) (omega arith)

final_once_example :
    (reply_all (okay (codes "done") ∷ fail (codes "late") ∷ info (codes "later") ∷ []) session).sent
    ≡ (reply (okay (codes "done")) session).sent
final_once_example =
    final_once (okay (codes "done")) (fail (codes "late") ∷ info (codes "later") ∷ []) session tt

usb_read_progress-Completes_example :
    (first_slice 10000 % 4096 ≡ 0)
    × (0 < first_slice 10000)
    × (first_slice 10000 ≤ 10000)
    × Completes 10000 session (usb_read_progress 10000 session)
usb_read_progress-Completes_example =
    usb_read_progress-Completes 10000 (omega arith) session (omega arith)

cmd_download-outcome_example : DownloadOutcome (codes "00000005") session
cmd_download-outcome_example = cmd_download-outcome (codes "00000005") session

response_data-announces_example :
    (length (data_packet 48879) ≡ 12)
    × (strtoul (drop 4 (data_packet 48879)) ≡ 48879)
    × (response_data 48879 session ≡ (
      true,
      record session {
        writes = some 64 ∷ some 64 ∷ some 64 ∷ [];
        sent = session.sent ++ data_packet 48879 ∷ [];
      },
    ))
response_data-announces_example =
    response_data-announces 48879 64 session (some 64 ∷ some 64 ∷ some 64 ∷ []) (omega arith) refl
      refl (omega arith)

hello_read :
    streaming_download 5 false session ≡ (some (codes "hello"), record session { reads = [] })
unfolding streaming_download usb_read usb_read_loop
hello_read = refl

-- A host that confirms the size of a file of two bytes.
abbrev two_bytes : Option (Option PulledFile)
two_bytes = some (some (record { size = 2; content = some (codes "hi") }))

abbrev confirming : Session
confirming = record session { reads = some (codes "FILE00000002") ∷ [] }

two_bytes_are_pulled : pull_file two_bytes [] confirming ≡ (
  true,
  record confirming {
    reads = [];
    writes = some 64 ∷ some 64 ∷ some 64 ∷ [];
    sent = file_packet 2 (codes "hi") ∷ [];
    download_base = file_packet 2 (codes "hi");
    download_size = 14;
  },
)
unfolding pull_file usb_read usb_read_loop usb_write strtoul hex_pad
two_bytes_are_pulled = refl

pull_file-Pulled_example : Pulled two_bytes confirming (record confirming {
  reads = [];
  writes = some 64 ∷ some 64 ∷ some 64 ∷ [];
  sent = file_packet 2 (codes "hi") ∷ [];
  download_base = file_packet 2 (codes "hi");
  download_size = 14;
})
pull_file-Pulled_example = pull_file-Pulled two_bytes [] confirming _ two_bytes_are_pulled
