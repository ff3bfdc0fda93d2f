-- ===== src/Lib.antt =====
-- The firmware package QSD8250Pkg (UEFI for the HTC Leo and its relatives): models of its keypad, its
-- GPIO pins, its interrupt controller, its menu, its serial consoles, its microprocessor, its battery,
-- its clocks, its I2C controller, its calls of the modem, its SD card and its game, with the theorems
-- that make them correct.
--
-- The parts, and the code that each file is about:
--   Base, Base/*        shared names, and lemmas on lists, integers and the bits of words.
--   Mmio                memory-mapped registers. The hardware is a parameter: a read and a write over a
--                       state, and, as a hypothesis, that control registers hold what is written.
--   Keypad/Queue        the ring of keys of QSD8250Pkg/Drivers/KeypadDxe (PushEfikeyBufTail,
--                       PopEfikeyBufHead, IsEfikeyBufEmpty); Queue/Spec is the bounded list that it
--                       implements, Queue/Refine the proof.
--   Keypad/Bitmap       which keys are down: KeySetState and KeyGetState of
--                       QSD8250Pkg/Include/Library/KeypadDeviceHelperLib.h over BitmapLib.h.
--   Keypad/Context      one key over time: LibKeyUpdateKeyStatus of KeypadDeviceHelperLib.h. Context/Polls
--                       runs it over a sequence of polls; Press, LongPress and Invariant are about it.
--   Keypad/Console      the driver's private data, its poll (KeypadController.c) and the push of a key
--                       with its notifications (Keypad.c); Pushed is about a poll.
--   Keypad/Console/Read the text input protocols of KeypadTextIn.c: KeypadReadKeyStroke,
--                       KeypadReadKeyStrokeEx, KeypadWaitForKey, KeypadEfiReset, KeypadSetState.
--   Keypad/Console/Registry
--                       KeypadRegisterKeyNotify, KeypadUnregisterKeyNotify, KeyNotifyProcessHandler.
--   Gpio                QSD8250Pkg/Drivers/GpioDxe/GpioDxe.c: Gpio/Banks on the table of banks,
--                       Gpio/Pins on pins.
--   Interrupt           QSD8250Pkg/Drivers/InterruptDxe/InterruptDxe.c: Register, Masks and Dispatch.
--   Tetris/Piece        the tetriminoes of QSD8250Pkg/Application/TetrisApp/Piece.c and Piece.h, with the
--                       random generator; Piece/Shapes is about their bodies.
--   Tetris/Board        the moves, full lines and score of Board.c: Board/Shift and Board/Rows on rows,
--                       Board/Lines on checkAndRemoveLines, Board/Marks and Board/Top on marked fields,
--                       Board/Fall, Board/Drop, Board/Ready and Board/Inside on the moves.
--   Tetris/Core         the game loop of Core.c and main.c: Core/Rounds on sequences of events,
--                       Core/States on the states in which the game does not run.
--   Keypad/Device       the seven keys, QSD8250Pkg/Library/KeypadDeviceImplLib: Device/Wiring on what each
--                       device has, Device/Poll on the poll and the LED. Device/Polling is about what
--                       polls keep, Device/Led and Device/Light about the LED and its timer, Device/Stroke about the
--                       console driver over this device.
--   Menu/HexInput       GetHexInput of QSD8250Pkg/Application/HtcLeoMenuApp/HexInput.c; HexInput/Spec is the
--                       editor of eight digits that it implements, Refine the proof, Enter the keys that
--                       enter a number.
--   Menu/Pages          the pages, the keys and the drawing of menu.c in the same folder, and the wait of
--                       ShellAppMain: Pages/Shown on what is selected and drawn, Pages/Waits on the wait with
--                       the keys of the keypad device.
--   Serial/FrameBuffer  the console of QSD8250Pkg/Library/FrameBufferSerialPortLib, with the glyphs of
--                       QSD8250Pkg/Include/Resources/font5x12.h in FrameBuffer/Font; Inside is about the bytes
--                       it writes, Cursor about writes.
--   Serial/InMemory     the log of QSD8250Pkg/Library/InMemorySerialPortLib; Recent is about what it keeps.
--   MicroP              QSD8250Pkg/Drivers/MicroPDxe/MicroPDxe.c over the I2C bus, with the registers in
--                       MicroP/Cmd: Sent on the transfers it makes, Words on the words it reads.
--   Battery             the gauge of QSD8250Pkg/Library/DS2746Lib/DS2746.c, and Battery/Readings about what
--                       its readings are worth; Battery/Charger is QSD8250Pkg/Application/ChargingApp, with
--                       Charger/Decides on its decisions.
--   Menu/Dump           ReadMemoryAndWriteToFile of QSD8250Pkg/Application/HtcLeoMenuApp/MemoryTools.c; Handles
--                       is about the handles that it opens.
--   Clock               QSD8250Pkg/GPLDrivers/ClockDxe/acpuclock.c: the change of the processor's rate.
--                       Source is about the field that selects the clock, Rates about the change.
--                       Init is its start, and Booted about that; Untouched is about what the set-up of
--                       the PLL keeps. Driver is ClockDxe.c beside it, the clocks that the modem controls;
--                       Speeds is about the speeds that rates stand for, Served about its requests.
--   I2c                 QSD8250Pkg/GPLDrivers/I2CDxe/I2CDxe.c: the interrupt handler, and I2c/Transfer the
--                       transfers over it. Bounds is about what the handler may access, Ends about whole
--                       transfers, Frames, Sent and Order about the words that go out, Clocking about the clock.
--   Pcom                QSD8250Pkg/Library/MsmPcomLib/pcom.c, with Pcom/Clients the calls of the drivers
--                       (QSD8250Pkg/Library/MsmPcomClientLib/pcom_clients.c too). Modem is about one call,
--                       Switch about the loops that call until the modem reports success.
--   SdCard              QSD8250Pkg/GPLDrivers/SdCardDxe/SdCardDxe.c, with the loops over blocks of mmc.c
--                       beside it; the transfer of one block is a parameter. Blocks is about reads, Written
--                       about writes and what is read back, Mbr about the search for the boot record.
--
-- How they interact: a key context pushes keys through the interface of the console driver; the driver
-- polls a keypad device, which is a parameter (Keypad.Console.Platform) that Keypad/Device fills, puts
-- the keys into its queues and serves readers from them. The game reads its keys from the text input protocol, by their codes.
-- The clocks' driver and the start of the processor's clock call the modem through Pcom.
--
-- State: a C object is a record, a function takes it and returns it; events, pool addresses and
-- notification functions are numbers. UINTN has 32 bits and UINT64 wraps where the source adds.
--
-- Bounds and fuel: KeypadReadKeyStroke takes one counter reading for each round of its loop, and the
-- loops over the key queue take fuel for 256 rounds, more than the 255 keys that the queue can hold.
-- checkAndRemoveLines takes fuel for 41 rounds: 20 rows, each full one looked at twice; dropPiece takes
-- fuel for 23 moves on 22 rows.
-- A character of the console takes fuel for two rounds of painting: at the end of the last line the
-- screen is cleared and the character is painted once more, on the first.
-- The wait of UlpiWrite is a recursion on its 10000 tries.
-- The waits for the PLL take fuel; one round is enough where the status shows no switch in progress.
-- The waits of I2c are the source's: 200 polls of the status, 9 clock cycles, 17 tries. A call of the modem
-- takes fuel for its waits; with a modem that answers when it is interrupted one round is enough.
--
-- Not modelled: raising and restoring the task priority level, debug output, the driver binding with
-- the protocol database of the boot services, the copies of EDK II drivers, and the parts that are not
-- named above.
pub mod Base
pub mod Keypad
pub mod Mmio
pub mod Tetris
pub mod Gpio
pub mod Interrupt
pub mod Menu
pub mod SdCard
pub mod Serial
pub mod MicroP
pub mod Battery
pub mod Clock
pub mod I2c
pub mod Pcom
