-- ===== src/Lib.antt =====
-- tboot is the pre-boot environment of an Android device: a fastboot server behind the USB device
-- node, which a host uses to download and flash images, with a small user interface, a screen that
-- dims itself and a boot flow for the installed system. This library models the parts that decide
-- what the host is answered and what reaches the disk.
--
-- The parts and the files that model them:
--
-- Base holds numbers, texts and integers: a text is the list of its character codes, an unsigned
-- int or long is a natural number with `% 2 ^ 32` where the source can wrap around, and `strtoul`,
-- `atoi` and `%08lx` are those of the C library.
--
-- Fastboot models src/fastboot.c. `Session` holds `fastboot_state`, the published variables, the
-- download buffer and the device node. What read() and write() return is the environment's choice
-- and is given as two scripts, an entry for each call, so that every theorem holds for every
-- behaviour of the transport. Usb: usb_read and usb_write. Ack: the loop of _fastboot_ack, with the
-- pointer that it moves as an index and a fault where it leaves its text. Reply: fastboot_info,
-- fastboot_fail and fastboot_okay. Progress: usb_read_progress. Handshake: response_data and
-- streaming_download. Download: the variables, download:, download_to and pull_file.
--
-- Loop models fastboot_command_loop and the registration of commands. The handlers are a parameter,
-- and what the loop relies on in them is the record HandlerLaws. Device adds the globals of
-- src/tboot.c that the loop uses: the alarm, the autoboot and keypress flags, the battery.
--
-- Aboot models src/aboot.c. Target is what its commands work on: the disk as libdiskconfig describes
-- it, the programs that are run, and the functions that plugins register, all of them parameters; its
-- module Registry holds aboot_register_cmd. Commands: cmd_erase, cmd_boot, cmd_reboot, cmd_reboot_bl
-- and the lists. Oem: cmd_oem with `oem push`. Flow is the small monad of steps that end in a value or
-- at `goto error`, Flash the transfer of cmd_stream_flash in it, Flash/Command the command as a whole;
-- Flow/Outcome has the rules by which the modules of Flash follow the steps: Flash/Filling the loop
-- that receives, Flash/Outcome the transfer, Flash/Command/Streamed a flash to a device, Ending the
-- choice of what is flashed and Closing the whole command. Pipeline models the two threads of the
-- transfer: the main thread receives pieces of an image into two buffers, the thread `reader` writes
-- them to the device. A schedule is any sequence of moves of the two threads, of failures and of
-- SIGPIPE.
--
-- Server puts the pieces together: `handle` is the function behind each registered name,
-- fastboot_handler opens the device node and runs the command loop, again and again. What is asked of
-- plugins is the record PluginLaws; Fastboot/Online, Aboot/Commands/Online and Aboot/Oem/Online show
-- that the program's own commands have HandlerLaws.
--
-- Lcd models src/backlight_control.c, Config the configuration of src/tboot.c, Config/Parser the
-- parser of libcutils/config_parser.c that reads the file.
--
-- Uevent models src/uevent.c: the table of devices, the parsing of a kernel event and the loop of
-- uevent_thread over the messages it receives, with the files under /sys as a function. Boot models
-- the boot flow of src/tboot.c: the kernel command line, the countdown and the start of the installed
-- kernels, with what happens in each second of the countdown as a list.
-- Fstab models src/fstab.c: the lines and options of the table of volumes and the lookups in it.
-- Boot/Kexec models kexec_linux of src/tboot_util.c, Boot/Rootfs the kernels on an external root file
-- system. Panel models the keys, signals and status changes of src/tboot.c as events on one state,
-- with the screen and its alarm. Recovery models the software updates of src/tboot.c with the mounts
-- and apply_sw_update of src/tboot_util.c, Util its text and file helpers, Battery/Dirs the array of
-- directories that battery_init_dirs of src/battery.c makes.
--
-- Minui models libminui/minui.c: a window, a line of text, and what is drawn as a list of DirectFB's
-- calls. Minui/Textarea holds the text area, a ring of lines that wraps its messages, Minui/Menu the
-- menu and its keys, Minui/Bar the bar, the text bar and, in Bounce, the thread of the bounce bar. Where
-- DirectFB's GetStringBreak() breaks a line and what is in the memory of new lines are parameters.
-- Putting a line has one round for each byte and one more, which is enough where every break takes a
-- byte; drawing an area has one round for each line of the ring.
--
-- Ui models src/tboot_ui.c on top of it: Ui itself the lines of text, Ui/Textbar the text bar with its
-- percent and, in Pictures, what each of its pictures holds, Ui/Settings the configuration that the parser of Config reads, Ui/Layout the four windows
-- and Ui/Components what they hold. Fonts are a parameter, and the window system is taken to place a
-- window where it is asked to. The calls of the server into it are values of Fastboot's `UiCall` in
-- its session; Ui/Server takes them through the macros of src/tboot_ui.h and runs them on the bar and
-- the log that tboot_ui_adjust has made.
--
-- Fuel: the loop of _fastboot_ack is given one round more than its text and its script of writes are
-- long, together, which is always enough; usb_read_progress is given one round for each byte and one
-- more, enough for every length that an int holds; the command loop needs one round for each read
-- and one more. The loops of cmd_stream_flash have one round for each announced byte and one more,
-- which is enough unless the length and a buffer of 4 MiB together leave 32 bits.
--
-- Not modelled: the set-up and release of DirectFB and tboot_ui_drawstring (src/tboot_ui.c), the
-- functions that free (libminui/minui.c), the set-up of disk and threads in main(), the unused
-- cmd_flash, cmd_flash_update, cmd_flash_system and cmd_continue, the external programs that
-- src/tboot_util.c and src/aboot.c run, battery_status with key_value (src/battery.c), which uses
-- values that were never set, and the copies of Android libraries (libcutils, libsparse, ext4_utils,
-- libdiskconfig), whose hash map is taken for the finite map that it implements. A text that a
-- caller passes to a reply has no NUL in it.
pub mod Base
pub mod Fastboot
pub mod Aboot
pub mod Lcd
pub mod Config
pub mod Device
pub mod Loop
pub mod Battery
pub mod Boot
pub mod Fstab
pub mod Minui
pub mod Panel
pub mod Recovery
pub mod Server
pub mod Uevent
pub mod Ui
pub mod Util
