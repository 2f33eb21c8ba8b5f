-- ===== src/Lib.antt =====
-- Verification library of the parking gate remote: a NestJS server (backend/src) that opens a gate
-- through a microcontroller, with its users, their sessions, the devices and a log.
--
-- A request of a user passes the guards (the token, the session, the status and the active device)
-- and reaches a service. The gate service registers the request id, calls the device service, and
-- writes one log entry. The device service makes up to a given number of attempts; over MQTT, an
-- attempt is a promise that an acknowledgement, a timer, a failure to publish or the shutdown
-- settles. The auth service keeps users and sessions up to date through the users service. The
-- microcontroller polls for commands that an admin has left for it, and sends acknowledgements, its
-- status and its diagnostics. An admin may open a terminal on the host through a socket. The pages in
-- the browser call the server and redirect the visitor by what it says.
--
--   Common      shared lists, lists in order, numbers, tests, texts, pages of a list, JSON values,
--               HTTP errors as values, maps
--   Mongo       the calls of MongoDB that the services use, as an interface with the documented
--               laws; Mongo/Lists fills it with lists, so that it can hold
--   Users       backend/src/users/users.service.ts and the schemas of users and sessions
--               (Users/Schema); Users/Sessions and Users/Lookup hold the lemmas on what writes do
--               to sessions and to the search by id
--   Auth        backend/src/auth/auth.service.ts: register, login, refresh, logout; Auth/Tokens is
--               the interface to bcrypt and the signing of tokens, and Auth/Tokens/Plain fills it;
--               Auth/Login and Auth/Rotation hold theorems; Auth/Passwords is requestPasswordReset,
--               resetPassword and updateMe, with theorems in its children; Auth/Profile is
--               getMe; Auth/Header and Auth/Routes are the tokens and cookies of auth.controller.ts
--               and the keys of the throttlers; Auth/Guards is jwt.strategy.ts, approved.guard.ts
--               and admin.guard.ts, with theorems in
--               Auth/Guards/Access and Auth/Guards/Passage
--   Gate        backend/src/gate/gate.service.ts; Gate/Log is schemas/gate-log.schema.ts,
--               Gate/Audit and Gate/Replay hold theorems; Gate/Retry is the loop over attempts of
--               gate-device.service.ts; Gate/Mqtt is the state machine of
--               mqtt-gate-device.service.ts, with theorems in its children, and Gate/Messages is what
--               that service does with the messages of the microcontroller, with theorems in
--               Gate/Messages/Bounds and Gate/Messages/Kept; Gate/Routes is gate.controller.ts with
--               gate-exception.filter.ts and utils/ip-extractor.ts, with its theorem in
--               Gate/Routes/Access; Gate/Pages is the reading of the log, with theorems in
--               Gate/Pages/Cover, and Gate/Diagnostics the reading of a device's diagnostics
--   Admin       backend/src/admin/admin.service.ts; Admin/Validators is what the ValidationPipe of
--               main.ts lets through by dto/update-user.dto.ts and dto/reset-password.dto.ts, with
--               what class-validator does in a record of parameters; Admin/Sound,
--               Admin/Update, Admin/Sessions and
--               Admin/Devices hold theorems; Admin/Listing is getUsers and getDeviceStatuses, with
--               theorems in Admin/Listing/Cover and Admin/Listing/Disconnect; Admin/Steps has
--               approveAllPendingUsers and the sequences of an admin's calls, with theorems in its
--               children; Admin/Terminal and Admin/Terminal/Gateway are
--               admin/terminal, the web terminal, with theorems in Admin/Terminal/Kept and
--               Admin/Terminal/Access
--   Device      backend/src/device/device-commands.service.ts and the poll of device.controller.ts;
--               Device/Delivery, Device/Once and Device/Access hold theorems; Device/Ota is the
--               manifest of the firmware's updates
--   Simulator   mcu-sim/src/index.js, the simulated microcontroller; Simulator/Served sets it against
--               the server
--   Web         frontend/src: Web/Phone is lib/phone.ts, Web/Api is lib/api.ts, Web/Navigation is
--               components/NavigationGuard.tsx and RequireAuth.tsx; their theorems are in
--               Web/Phone/Parts, Web/Phone/Pattern (which sets the forms against the server's
--               pattern of a number), Web/Api/Exchange and Web/Navigation/Settled; Web/Numerals and
--               Web/Trim are what the pages use of JavaScript; Web/Home is app/page.tsx with
--               components/GateButton.tsx, with theorems in Web/Home/Flight; Web/Forms is
--               app/register/page.tsx and app/me/page.tsx; Web/Account is context/AuthContext.tsx,
--               lib/auth.ts and lib/time.ts
--   Web/Admin   frontend/src/app/admin/AdminPageContent.tsx: Forms and Server are its requests and
--               the server's answers, with theorems in Forms/Saved and Forms/Opened; Dialogs is the
--               state of the dialogs, with theorems in Dialogs/Tidy and Dialogs/Unsaved; Address is
--               the filters in the address, with theorems in Address/RoundTrip; Numbers is the pager
--               and Fleet the devices
--   Cleanup     backend/scripts/cleanup-duplicate-emails.ts; Cleanup/Shell is
--               deploy/cleanup-duplicate-emails.mongosh.js, and Cleanup/Agree sets one against the
--               other
--
-- A stateful operation takes the database (or the state of the service) and returns the new one
-- with a result; an exception is a value that carries its status code and its message. Functions
-- keep the names of the source in lower case, as open_by_user for openByUser. MongoDB, bcrypt, the
-- signing of tokens, the MQTT client, the e-mail's going out, on the server the removal of spaces
-- around a text and `Number` of a text, the order that MongoDB sorts users in at each read and the
-- groups that it makes, the verdict of the throttler, what class-validator makes of the two
-- conditions on a rejection's reason and of MinLength, the program behind a terminal and the
-- network of the browser are parameters. Times are numbers of milliseconds. A promise or a timer is
-- named by the number of the call that made it. Letters of the Hebrew messages are written by their
-- code points. The loop over attempts counts the attempts that are left, which is the source's own
-- bound; no other loop needs one.
--
-- Not modelled: the interleaving of two requests inside a call (each call is one step, except that
-- a socket may go before the rest of its connection runs), the failure of a read of MongoDB, and of
-- a write other than the creation of a document or what a message of the microcontroller stores,
-- the unique index on session ids (which the theorems that need it have as a condition), the order
-- in which two reads give log entries of the same time, which is taken to be the same at each read,
-- JSON numbers that are not whole, the difference between UTF-16 units and code points in lengths
-- (but for the length of a new password in the page of the admin), the validators of the requests'
-- bodies but for an admin's update of a user or of a password and the pattern of a number, the
-- refresh that concurrent calls of the browser share, the order in which React runs effects, the
-- reloading of lists after a call, the e-mail texts, the firmware and the looks of the web pages.
pub mod Common
pub mod Mongo
pub mod Admin
pub mod Auth
pub mod Cleanup
pub mod Device
pub mod Gate
pub mod Simulator
pub mod Users
pub mod Web
