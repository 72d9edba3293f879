-- ===== src/Lib.antt =====
-- The core of the Knish.IO C++ client: from a secret and a list of atoms to a signed molecule that every
-- peer can verify, and the storage that keeps the secret.
--
-- The parts, from the bottom up, and how they interact:
--   Base                shared names; lists, texts (a string is the list of its bytes), results with the
--                       exception classes, signed integers, positional numbers, std::to_string, std::stoi.
--   Codec/Hex, Base64, Chunks   toHexString, fromHexString, toBase64, fromBase64, hexToBase64, base64ToHex,
--                       chunkSubstr of src/utility.cpp; isStrictBase64 of src/Molecule.cpp.
--   Radix               charsetBaseConvert of src/utility.cpp, with its packing of nibbles into 64-bit limbs
--                       and its division of the limbs.
--   BigInt              BigInt, constantTimeHexAdd, isValidHex, isSignableHash of src/crypto_bigint.cpp, on
--                       limbs of 32 bits.
--   Json, Libraries     the values that are printed; the vendored sponge FIPS202_SHAKE256 and
--                       nlohmann::json::dump as parameters.
--   Hash                shake256, shake256Hex of src/utility.cpp.
--   Atom                the record of src/Atom.h; version4ViewJson, hashAtoms, hashAtomsHex, hashAtomsBase17
--                       of src/Atom.cpp.
--   Wallet              the record of src/Wallet.h; generateBundleHash, checkedOtsVersion, setOtsVersion,
--                       detectOtsVersion, generateWalletKey, generateWalletAddress of src/Wallet.cpp.
--   Units               TokenUnit; splitUnits, splitUnitsMulti, getTokenUnitsJson of src/Wallet.cpp.
--   Ots                 enumerate, normalize and the hash chains of src/Molecule.cpp.
--   Molecule            the record of src/Molecule.h; sign, verifyOts, verifyMolecularHash, verifyContinuId.
--   Floats, Conservation   verifyTokenIsotopeV and verifyCrossIsotopeConservation of src/Molecule.cpp, with the
--                       floating-point numbers as a parameter.
--   Check               Molecule::verify and Molecule::check of src/Molecule.cpp.
--   Builders            initTokenCreation, initTokenReplenish, initMeta, initAuthorization,
--                       initWalletCreation, initShadowWalletClaim, addContinuIdAtom of src/Molecule.cpp.
--   Transfers           initValue, initValues, initDepositBuffer, initWithdrawBuffer, initTokenFusion of
--                       src/Molecule.cpp.
--   Wire                Molecule::toJson, Molecule::jsonToObject of src/Molecule.cpp, Atom::jsonToObject of
--                       src/Atom.cpp.
--   Served              daysFromCivil, parseRfc3339Millis, toSignedTimestamp, servedToClient, verifyClient,
--                       fromServerData, verifyFromServerData of src/Molecule.cpp.
--   Message             encryptMessage, decryptMessage, generatePublicAndPrivateKeys of src/crypto.cpp.
--   Response            The classes of src/response/Response.cpp and include/response/Response.h.
--   Storage             src/storage: Base64 and Payload (the base64 and the JSON of an envelope), Envelope
--                       (deriveKey, seal, open) of src/storage/SecretEnvelope.cpp; Backend
--                       (MemoryStorageBackend, FileStorageBackend) of src/storage/StorageBackend.cpp; Provider
--                       and Memory (the two providers) of src/storage/SecretStorageProvider.cpp. The providers
--                       use a backend through the record StorageBackend and the laws IsStore.
--   Tests               runs at concrete inputs.
--
-- State and exceptions: a member function that changes the molecule returns the molecule beside its result,
-- also when it throws; other functions that may throw return `Result`, the value or the class of the
-- exception. Names are those of the source in snake case. Reading or writing past the end of a vector, which
-- the source does not test, is the error out_of_range. Signed overflow wraps. Characters are bytes, and a
-- text may hold any: the JSON printer throws where one is not UTF-8, so `dump` returns a `Result`, and
-- what prints atoms, token units or trade rates hands its exception on.
--
-- Bounds and fuel: the outer loop of normalize has as fuel the distance of the total from zero, which each
-- pass makes smaller. The division loop of charsetBaseConvert has as fuel a bound on the number of digits,
-- and gives no result when it runs out. The digits of a decimal number have as fuel the number and one.
--
-- Not modelled: the optional kcore library (the code without it is), wiping of memory, constant time, the
-- clock (a parameter), randomString (a parameter), the ML-KEM envelopes, queries, the
-- client and its transport.
pub mod Base
pub mod Codec
pub mod BigInt
pub mod Radix
pub mod Json
pub mod Libraries
pub mod Hash
pub mod Atom
pub mod Wallet
pub mod Units
pub mod Ots
pub mod Molecule
pub mod Floats
pub mod Conservation
pub mod Check
pub mod Builders
pub mod Transfers
pub mod Wire
pub mod Served
pub mod Response
pub mod Storage
pub mod Message
pub mod Tests
